-- ===== src/Allocator/Subnet/Ranges.antt =====
-- pkg/allocator/subnet_allocator.go: the loop of parseAndExclude over a range of addresses.
use zstack_ovn_kubernetes.Base.{
  ℕ, zero, suc, ◌≡◌, refl, ◌∙◌, true, false, [], ◌∷◌, arith, Text, trim_space,
}
use zstack_ovn_kubernetes.Net.Ip.{Ip, to4, is_nil, ip_equal}
use zstack_ovn_kubernetes.Net.Parse.{parse_ip}
use zstack_ovn_kubernetes.Net.Util.{IsFour, to4-IsFour, length-increment}
use zstack_ovn_kubernetes.Allocator.Subnet.{SubnetAllocator, exclude_ip, increment_ip}
use zstack_ovn_kubernetes.Allocator.Subnet.Errors.{err, running, ip_out_of_range}
use zstack_ovn_kubernetes.Allocator.Subnet.Valid.{IsValid, index_other}
use zstack_ovn_kubernetes.Allocator.Subnet.Exclude.{exclude_range, exclude_parts}

-- An address with no IPv4 form is never equal to a four-byte address.
not_equal_other : (ip stop : Ip) → is_nil (to4 ip) ≡ true → IsFour stop → ip_equal ip stop ≡ false
unfolding to4 ip_equal
not_equal_other ip stop n four = ground arith

exclude_ip_other :
    {a : SubnetAllocator} (v : IsValid a) (ip : Ip)
    → is_nil (to4 ip) ≡ true
    → exclude_ip a ip ≡ err (ip_out_of_range [])
unfolding exclude_ip
exclude_ip_other v ip n = rw (index_other v ip n)

increment_ip_other : (ip : Ip) → is_nil (to4 ip) ≡ true → increment_ip ip ≡ []
unfolding increment_ip
increment_ip_other ip n = rw n

pub to4_nil : is_nil (to4 []) ≡ true
unfolding to4
to4_nil = refl

exclude_range_other :
    {a : SubnetAllocator} (v : IsValid a) (rounds : ℕ) (ip stop : Ip)
    → is_nil (to4 ip) ≡ true
    → IsFour stop
    → exclude_range rounds a ip stop ≡ running
unfolding exclude_range
exclude_range_other v zero ip stop n four = refl
exclude_range_other v (suc rounds) ip stop n four =
    rw
      (
        not_equal_other ip stop n four,
        exclude_range,
        exclude_ip_other v ip n,
        increment_ip_other ip n,
      )
      (exclude_range_other v rounds [] stop to4_nil four)

pub increment_ip-IsFour : (ip : Ip) → is_nil (to4 ip) ≡ false → IsFour (increment_ip ip)
unfolding increment_ip
increment_ip-IsFour ip n = rw n (length-increment (to4 ip) ∙ to4-IsFour ip n)

-- On a valid allocator, a range whose first address is IPv6 and whose last is IPv4 is accepted, and its
-- loop does not end within any number of rounds.
pub exclude_parts_mixed :
    (a : SubnetAllocator) (rounds : ℕ) (spec p q : Text)
    → IsValid a
    → is_nil (parse_ip (trim_space p)) ≡ false
    → is_nil (to4 (parse_ip (trim_space p))) ≡ true
    → is_nil (to4 (parse_ip (trim_space q))) ≡ false
    → exclude_parts rounds a spec (p ∷ q ∷ []) ≡ running
unfolding exclude_parts
exclude_parts_mixed a rounds spec p q v some_p six_p four_q =
    rw (some_p, some_q (parse_ip (trim_space q)) four_q)
      (exclude_range_other v rounds (parse_ip (trim_space p))
        (increment_ip (parse_ip (trim_space q))) six_p
        (increment_ip-IsFour (parse_ip (trim_space q)) four_q))
  where
    some_q : (ip : Ip) → is_nil (to4 ip) ≡ false → is_nil ip ≡ false
    some_q [] h = absurd (ground (arith, to4_nil))
    some_q (b ∷ bs) h = refl
