-- ===== src/Net/Ip.antt =====
-- net.IP and net.IPNet: an address is its bytes, 4 or 16 of them; the nil address has none.
use zstack_ovn_kubernetes.Base.{
  ℕ, zero, suc, ◌+◌, ◌-◌, ◌*◌, ◌/◌, ◌%◌, ◌^◌, ◌≡◌, ap, Bool, true, false, ◌&&◌, List, [], ◌∷◌, ◌++◌,
  ◌==◌, if◌then◌else◌, text_eq, length, take, drop,
}

abbrev pub Ip : Type 0
Ip = List ℕ

abbrev pub is_nil : Ip → Bool
is_nil [] = true
is_nil (b ∷ bs) = false

-- The ::ffff:0:0/96 prefix under which an IPv4 address is written in 16 bytes.
abbrev pub mapped_prefix : Ip
mapped_prefix = 0 ∷ 0 ∷ 0 ∷ 0 ∷ 0 ∷ 0 ∷ 0 ∷ 0 ∷ 0 ∷ 0 ∷ 255 ∷ 255 ∷ []

unfoldable pub to4 : Ip → Ip
to4 ip =
    if length ip == 4
    then ip
    else if (length ip == 16) && text_eq (take 12 ip) mapped_prefix
    then drop 12 ip
    else []

unfoldable pub to16 : Ip → Ip
to16 ip = if length ip == 4 then mapped_prefix ++ ip else if length ip == 16 then ip else []

-- net.IPv4(a, b, c, d).
abbrev pub ipv4 : ℕ → ℕ → ℕ → ℕ → Ip
ipv4 a b c d = mapped_prefix ++ a ∷ b ∷ c ∷ d ∷ []

-- IP.Equal: a 4-byte address equals its 16-byte form.
unfoldable pub ip_equal : Ip → Ip → Bool
ip_equal a b =
    if length a == length b
    then text_eq a b
    else if (length a == 4) && (length b == 16)
    then text_eq (take 12 b) mapped_prefix && text_eq a (drop 12 b)
    else if (length a == 16) && (length b == 4)
    then text_eq (take 12 a) mapped_prefix && text_eq (drop 12 a) b
    else false

-- The number that bytes spell, the first byte highest.
unfoldable pub value_from : ℕ → List ℕ → ℕ
value_from acc [] = acc
value_from acc (b ∷ bs) = value_from (acc * 256 + b) bs

unfoldable pub value : List ℕ → ℕ
unfolding value_from
value bs = value_from 0 bs

-- The lowest n bytes of a number.
unfoldable pub to_bytes : ℕ → ℕ → List ℕ
to_bytes zero v = []
to_bytes (suc n) v = (v / 256 ^ n % 256) ∷ to_bytes n v

-- A net.IPNet that net.ParseCIDR made: its mask has `ones` leading ones out of `bits`.
pub record IpNet : Type 0 where
  pub ip : Ip
  pub ones : ℕ
  pub bits : ℕ

-- How many addresses a net covers.
unfoldable pub hosts : IpNet → ℕ
hosts n = 2 ^ (n.bits - n.ones)

-- IP.Mask(CIDRMask(ones, bits)) for an address of that many bits: the host bits are cleared.
unfoldable pub mask : ℕ → Ip → Ip
unfolding to_bytes value
mask host ip = to_bytes (length ip) (value ip / 2 ^ host * 2 ^ host)

-- IPNet.Contains: an address of the net's length with the net's leading bits.
unfoldable pub contains : IpNet → Ip → Bool
unfolding hosts
contains n ip =
    let x = (if is_nil (to4 ip) then ip else to4 ip) in
    let nn = (if is_nil (to4 n.ip) then n.ip else to4 n.ip) in
    (length x == length nn) && (value x / hosts n == value nn / hosts n)

pub mask_four :
    (host : ℕ) (ip : Ip)
    → length ip ≡ 4
    → mask host ip ≡ to_bytes 4 (value ip / 2 ^ host * 2 ^ host)
unfolding mask
mask_four host ip e = ap (λ (n : ℕ). to_bytes n (value ip / 2 ^ host * 2 ^ host)) e
