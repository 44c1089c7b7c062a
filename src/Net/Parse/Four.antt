-- ===== src/Net/Parse/Four.antt =====
-- What net.ParseIP and net.ParseCIDR answer on IPv4 texts.
use zstack_ovn_kubernetes.Base.{
  ℕ, ◌+◌, ◌-◌, ◌*◌, ◌/◌, ◌^◌, ◌≤◌, ◌<◌, ◌≡◌, refl, ap, ◌∙◌, ◌⊎◌, true, not, ◌&&◌, ◌||◌, List, [],
  ◌∷◌, ◌++◌, some, ltb, ◌==◌, Text, length, drop, arith, All, All-append, length-append, inl, inr,
  Bool-cases, Option-cases,
}
use zstack_ovn_kubernetes.Net.Ip.{Ip, IpNet, mapped_prefix, mask, is_nil, value, to_bytes}
use zstack_ovn_kubernetes.Net.Bytes.{IsByte, place_value, value-place, place_value-lt}
use zstack_ovn_kubernetes.Net.Parse.{
  scan4, parse_ipv4_fields, is_digit, Family, four, six, neither, family, as16, parse_ip,
  parse_cidr, net_of, with_mask, dtoi_all, cut_slash,
}

-- Nothing, or four bytes.
abbrev pub FourOrNil : Ip → Type 0
FourOrNil ip = (is_nil ip ≡ true) ⊎ ((length ip ≡ 4) × All IsByte ip)

scan4-FourOrNil :
    (s : Text) (val digits : ℕ) (fields : List ℕ)
    → val < 256
    → All IsByte fields
    → FourOrNil (scan4 s val digits fields)
unfolding scan4
scan4-FourOrNil [] val digits fields h all =
    elim (Bool-cases ((length fields == 3) && not (digits == 0))) [
      | inl e ↦ rw e (
          inr (
            ground (arith, length-append fields (val ∷ [])),
            All-append IsByte fields (val ∷ []) all (h, tt),
          ))
      | inr e ↦ rw e (inl refl)
    ]
scan4-FourOrNil (c ∷ s) val digits fields h all = elim (Bool-cases (is_digit c)) [
  | inl d ↦ elim (Bool-cases (((digits == 1) && (val == 0)) || ltb 255 (val * 10 + (c - b'0')))) [
    | inl bad ↦ rw (d, bad) (inl refl)
    | inr good ↦
        rw (d, good)
          (scan4-FourOrNil s (val * 10 + (c - b'0')) (digits + 1) fields (ground arith) all)
  ]
  | inr d ↦ elim (Bool-cases (c == b'.')) [
    | inl dot ↦ elim (Bool-cases ((digits == 0) || (length fields == 3))) [
      | inl bad ↦ rw (d, dot, bad) (inl refl)
      | inr good ↦
          rw (d, dot, good)
            (scan4-FourOrNil s 0 0 (fields ++ val ∷ []) (omega arith)
              (All-append IsByte fields (val ∷ []) all (h, tt)))
    ]
    | inr other ↦ rw (d, other) (inl refl)
  ]
]

pub parse_ipv4_fields-FourOrNil : (s : Text) → FourOrNil (parse_ipv4_fields s)
unfolding parse_ipv4_fields
parse_ipv4_fields-FourOrNil s = scan4-FourOrNil s 0 0 [] (omega arith) tt

-- A parsed IPv4 net: its address is a 32-bit number with the host bits cleared.
pub record IsFourNet (n : IpNet) : Type 0 where
  pub four_bits : n.bits ≡ 32
  pub ones_le : n.ones ≤ 32
  pub masked :
      (v : ℕ) × (v < 2 ^ 32) × (n.ip ≡ to_bytes 4 (v / 2 ^ (32 - n.ones) * 2 ^ (32 - n.ones)))

value-lt_four : (ip : Ip) → length ip ≡ 4 → All IsByte ip → value ip < 2 ^ 32
value-lt_four ip h bytes =
    rw (value-place ip)
      (let lt : place_value ip < 256 ^ 4 = rw h at (place_value-lt ip bytes) in lt)

net_of-IsFourNet :
    (addr fields : Ip) (ones : ℕ) (ip : Ip) (n : IpNet)
    → drop 12 addr ≡ fields
    → length fields ≡ 4
    → All IsByte fields
    → net_of addr 32 ones ≡ some (ip, n)
    → IsFourNet n
unfolding net_of mask
net_of-IsFourNet addr fields ones ip n d len bytes e = elim (Bool-cases (ltb 32 ones)) [
  | inl long ↦ absurd (ground arith)
  | inr fits ↦
      let shape : n ≡ record {
        ip =
            to_bytes (length (drop 12 addr))
              (value (drop 12 addr) / 2 ^ (32 - ones) * 2 ^ (32 - ones));
        ones = ones;
        bits = 32;
      } =
        ground arith in
      rw (shape, d, len)
        (record {
          four_bits = refl;
          ones_le = ground arith;
          masked = (value fields, value-lt_four fields len bytes, refl);
        })
]

net_of_bits :
    (addr : Ip) (bits ones : ℕ) (ip : Ip) (n : IpNet)
    → net_of addr bits ones ≡ some (ip, n)
    → n.bits ≡ bits
unfolding net_of
net_of_bits addr bits ones ip n e = ground arith

as16_nil : as16 [] ≡ []
unfolding as16
as16_nil = refl

as16_cons : (x : ℕ) (xs : List ℕ) → as16 (x ∷ xs) ≡ mapped_prefix ++ x ∷ xs
unfolding as16
as16_cons x xs = refl

with_mask-IsFourNet :
    (m : Text) (fam : Family) (fields addr : Ip) (ip : Ip) (n : IpNet)
    → FourOrNil fields
    → (fam ≡ four → addr ≡ as16 fields)
    → n.bits ≡ 32
    → with_mask m fam addr ≡ some (ip, n)
    → IsFourNet n
unfolding with_mask
with_mask-IsFourNet m fam fields [] ip n h a b e = cc
with_mask-IsFourNet m four fields (c ∷ cs) ip n h a b e = elim (Option-cases (dtoi_all m)) [
  | inl none_e ↦ absurd (ground (arith, e, none_e))
  | inr (ones, some_e) ↦ four_case fields h (a refl) ones (rw (some_e, with_mask) at e)
]
  where
    four_case :
        (f : Ip)
        → FourOrNil f
        → c ∷ cs ≡ as16 f
        → (ones : ℕ) → net_of (c ∷ cs) 32 ones ≡ some (ip, n)
        → IsFourNet n
    four_case [] h s ones k = absurd (cc (s, as16_nil))
    four_case (x ∷ xs) (inl bad) s ones k = absurd (ground arith)
    four_case (x ∷ xs) (inr (len, bytes)) s ones k =
        net_of-IsFourNet (c ∷ cs) (x ∷ xs) ones ip n (ap (drop 12) (s ∙ as16_cons x xs)) len bytes k
with_mask-IsFourNet m six fields (c ∷ cs) ip n h a b e = elim (Option-cases (dtoi_all m)) [
  | inl none_e ↦ absurd (ground (arith, e, none_e))
  | inr (ones, some_e) ↦ absurd (ground (arith, net_of_bits (c ∷ cs) 128 ones ip n))
]
with_mask-IsFourNet m neither fields (c ∷ cs) ip n h a b e = elim (Option-cases (dtoi_all m)) [
  | inl none_e ↦ absurd (ground (arith, e, none_e))
  | inr (ones, some_e) ↦ absurd (ground (arith, e, some_e))
]

parse_ip_four_family : (s : Text) → family s ≡ four → parse_ip s ≡ as16 (parse_ipv4_fields s)
unfolding parse_ip
parse_ip_four_family s e = rw (e, parse_ip)

-- Whatever text parses to a net of 32 bits, that net is a block of IPv4 addresses.
pub parse_cidr-IsFourNet :
    (s : Text) (ip : Ip) (n : IpNet) → parse_cidr s ≡ some (ip, n) → n.bits ≡ 32 → IsFourNet n
unfolding parse_cidr
parse_cidr-IsFourNet s ip n e b = elim (Option-cases (cut_slash s)) [
  | inl none_e ↦ absurd (ground (arith, e, none_e))
  | inr ((a, m), some_e) ↦
      with_mask-IsFourNet m (family a) (parse_ipv4_fields a) (parse_ip a) ip n
        (parse_ipv4_fields-FourOrNil a) (parse_ip_four_family a) b (rw (some_e, parse_cidr) at e)
]
