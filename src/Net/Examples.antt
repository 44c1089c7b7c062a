-- ===== src/Net/Examples.antt =====
-- Tests and concrete instances for pkg/util/net.go.
use zstack_ovn_kubernetes.Base.{
  ◌+◌, ◌%◌, ◌^◌, ◌≡◌, refl, false, [], ◌∷◌, All, arith, length, text_eq,
}
use zstack_ovn_kubernetes.Net.Bytes.{IsByte}
use zstack_ovn_kubernetes.Net.Ip.{Ip, ipv4, to4, value, is_nil}
use zstack_ovn_kubernetes.Net.Util.{
  next_ip, next_ip-value, generate_mac, generate_mac-inj, increment,
}

abbrev last_of_block : Ip
last_of_block = 10 ∷ 244 ∷ 255 ∷ 255 ∷ []

next_ip-value_example :
    (length (next_ip last_of_block) ≡ 4)
    × (value (next_ip last_of_block) ≡ (value last_of_block + 1) % 256 ^ length last_of_block)
next_ip-value_example = next_ip-value last_of_block (omega arith)

next_ip_carry : next_ip last_of_block ≡ 10 ∷ 245 ∷ 0 ∷ 0 ∷ []
unfolding next_ip increment
next_ip_carry = refl

five_bytes : (All IsByte (to4 (ipv4 10 244 1 5))) × (is_nil (to4 (ipv4 10 244 1 5)) ≡ false)
unfolding to4 text_eq
five_bytes = (omega arith, refl)

short_bytes :
    (All IsByte (to4 (10 ∷ 244 ∷ 1 ∷ 5 ∷ []))) × (is_nil (to4 (10 ∷ 244 ∷ 1 ∷ 5 ∷ [])) ≡ false)
unfolding to4 text_eq
short_bytes = (omega arith, refl)

same_mac : generate_mac (ipv4 10 244 1 5) ≡ generate_mac (10 ∷ 244 ∷ 1 ∷ 5 ∷ [])
unfolding generate_mac to4 text_eq
same_mac = refl

generate_mac-inj_example : to4 (ipv4 10 244 1 5) ≡ to4 (10 ∷ 244 ∷ 1 ∷ 5 ∷ [])
generate_mac-inj_example =
    generate_mac-inj (ipv4 10 244 1 5) (10 ∷ 244 ∷ 1 ∷ 5 ∷ []) five_bytes.0 short_bytes.0
      five_bytes.1 short_bytes.1 same_mac
