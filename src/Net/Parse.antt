-- ===== src/Net/Parse.antt =====
-- net.ParseIP and net.ParseCIDR, after Go's package net/netip. A failed parse is the nil address.
pub mod Four
use zstack_ovn_kubernetes.Base.{
  ℕ, zero, suc, ◌+◌, ◌-◌, ◌*◌, ◌/◌, ◌%◌, ◌^◌, ◌≡◌, refl, Bool, true, false, not, ◌&&◌, ◌||◌, List,
  [], ◌∷◌, ◌++◌, Option, none, some, ltb, leb, ◌==◌, if◌then◌else◌, Text, codes, is_empty, length,
  take, drop, replicate,
}
use zstack_ovn_kubernetes.Net.Ip.{Ip, IpNet, mapped_prefix, mask, is_nil}

abbrev is_digit : ℕ → Bool
is_digit c = leb b'0' c && leb c b'9'

-- The loop of parseIPv4Fields: the number so far, its digits, and the finished fields.
scan4 : Text → ℕ → ℕ → List ℕ → Ip
scan4 [] val digits fields =
    if (length fields == 3) && not (digits == 0) then fields ++ val ∷ [] else []
scan4 (c ∷ s) val digits fields =
    let next = val * 10 + (c - b'0') in
    let digit = scan4 s next (digits + 1) fields in
    let dot = scan4 s 0 0 (fields ++ val ∷ []) in
    if is_digit c
    then (if ((digits == 1) && (val == 0)) || ltb 255 next then [] else digit)
    else if c == b'.'
    then (if (digits == 0) || (length fields == 3) then [] else dot)
    else []

unfoldable pub parse_ipv4_fields : Text → Ip
unfolding scan4
parse_ipv4_fields s = scan4 s 0 0 []

abbrev hex_digit : ℕ → Option ℕ
hex_digit c =
    if is_digit c
    then some (c - b'0')
    else if leb b'a' c && leb c b'f'
    then some (c - b'a' + 10)
    else if leb b'A' c && leb c b'F'
    then some (c - b'A' + 10)
    else none

-- The hex digits at the front: their value, how many there are, and the rest.
hex_run : Text → ℕ → ℕ → ℕ × ℕ × Text
hex_run [] acc n = (acc, n, [])
hex_run (c ∷ s) acc n = elim (hex_digit c) [
  | none ↦ (acc, n, c ∷ s)
  | some d ↦ hex_run s (acc * 16 + d) (n + 1)
]

-- What follows the loop: the text is used up, and `::` fills what is missing.
finish6 : Ip → Option ℕ → Text → Ip
finish6 ip ellipsis (c ∷ s) = []
finish6 ip none [] = if length ip == 16 then ip else []
finish6 ip (some at) [] =
    if ltb (length ip) 16 then take at ip ++ (replicate (16 - length ip) 0 ++ drop at ip) else []

-- What follows a group: the end, or a colon, or two.
after_group : (Ip → Option ℕ → Text → Ip) → Ip → Option ℕ → Text → Ip
after_group next ip ellipsis [] = finish6 ip ellipsis []
after_group next ip ellipsis (c ∷ []) = []
after_group next ip ellipsis (c ∷ d ∷ s) =
    if not (c == b':')
    then []
    else if not (d == b':')
    then next ip ellipsis (d ∷ s)
    else elim ellipsis [
      | some at ↦ []
      | none ↦ if is_empty s then finish6 ip (some (length ip)) [] else next ip (some (length ip)) s
    ]

abbrev head_is : ℕ → Text → Bool
head_is b [] = false
head_is b (c ∷ s) = c == b

abbrev is_none : Option ℕ → Bool
is_none none = true
is_none (some n) = false

-- The loop of parseIPv6 over at most eight groups.
scan6 : ℕ → Ip → Option ℕ → Text → Ip
unfolding hex_run finish6 after_group
scan6 zero ip ellipsis s = finish6 ip ellipsis s
scan6 (suc f) ip ellipsis s =
    let (acc, n, rest) = hex_run s 0 0 in
    let tail = parse_ipv4_fields s in
    let group = after_group (scan6 f) (ip ++ (acc / 256) ∷ (acc % 256) ∷ []) ellipsis rest in
    if (n == 0) || ltb 4 n
    then []
    else if head_is b'.' rest
    then (if is_none ellipsis && not (length ip == 12)
        then []
        else if ltb 12 (length ip) || is_nil tail
        then []
        else finish6 (ip ++ tail) ellipsis [])
    else group

parse_ipv6 : Text → Ip
unfolding scan6
parse_ipv6 [] = scan6 8 [] none []
parse_ipv6 (c ∷ []) = scan6 8 [] none (c ∷ [])
parse_ipv6 (c ∷ d ∷ s) =
    if not ((c == b':') && (d == b':'))
    then scan6 8 [] none (c ∷ d ∷ s)
    else if is_empty s
    then replicate 16 0
    else scan6 8 [] (some 0) s

-- The first of `.`, `:` and `%` decides the family.
pub data Family : Type 0 where
  four six neither : Family

family : Text → Family
family [] = neither
family (c ∷ s) =
    let rest = family s in
    if c == b'.' then four else if c == b':' then six else if c == b'%' then neither else rest

as16 : Ip → Ip
as16 [] = []
as16 (b ∷ bs) = mapped_prefix ++ b ∷ bs

unfoldable pub parse_ip : Text → Ip
unfolding family as16 parse_ipv6
parse_ip s = elim (family s) [
  | four ↦ as16 (parse_ipv4_fields s)
  | six ↦ parse_ipv6 s
  | neither ↦ []
]

-- dtoi over a whole text.
dtoi : Text → ℕ → Option ℕ
dtoi [] n = some n
dtoi (c ∷ s) n =
    let rest = dtoi s (n * 10 + (c - b'0')) in
    if is_digit c && ltb (n * 10 + (c - b'0')) 0xFFFFFF then rest else none

dtoi_all : Text → Option ℕ
unfolding dtoi
dtoi_all [] = none
dtoi_all (c ∷ s) = dtoi (c ∷ s) 0

-- The text before the first slash, and the text behind it.
cut_slash : Text → Option (Text × Text)
cut_slash [] = none
cut_slash (c ∷ s) =
    let rest = cut_slash s in
    if c == b'/' then some ([], s) else elim rest [ none ↦ none | some (p, q) ↦ some (c ∷ p, q) ]

-- The net of an address and a prefix length, in the address's own number of bits.
net_of : Ip → ℕ → ℕ → Option (Ip × IpNet)
net_of addr bits ones =
    if ltb bits ones
    then none
    else some (
      addr,
      record {
        ip = mask (bits - ones) (if bits == 32 then drop 12 addr else addr);
        ones = ones;
        bits = bits;
      },
    )

with_mask : Text → Family → Ip → Option (Ip × IpNet)
unfolding dtoi_all net_of
with_mask m fam [] = none
with_mask m fam (b ∷ bs) = elim (dtoi_all m) [
  | none ↦ none
  | some ones ↦ elim fam [
    | four ↦ net_of (b ∷ bs) 32 ones
    | six ↦ net_of (b ∷ bs) 128 ones
    | neither ↦ none
  ]
]

unfoldable pub parse_cidr : Text → Option (Ip × IpNet)
unfolding cut_slash with_mask family
parse_cidr s = elim (cut_slash s) [
  | none ↦ none
  | some (a, m) ↦ with_mask m (family a) (parse_ip a)
]

parse_ip_four : parse_ip (codes "10.244.1.5") ≡ mapped_prefix ++ 10 ∷ 244 ∷ 1 ∷ 5 ∷ []
unfolding parse_ip parse_ipv4_fields
parse_ip_four = refl

parse_ip_refused :
    (parse_ip (codes "10.244.1") ≡ [])
    × (parse_ip (codes "10.244.01.5") ≡ [])
    × (parse_ip (codes "10.244.1.256") ≡ [])
    × (parse_ip (codes "10.244..5") ≡ [])
    × (parse_ip (codes "") ≡ [])
    × (parse_ip (codes "10.244.1.5.") ≡ [])
unfolding parse_ip parse_ipv4_fields
parse_ip_refused = (refl, refl, refl, refl, refl, refl)

parse_ip_six :
    (parse_ip (codes "fd00::5")
      ≡ 253 ∷ 0 ∷ 0 ∷ 0 ∷ 0 ∷ 0 ∷ 0 ∷ 0 ∷ 0 ∷ 0 ∷ 0 ∷ 0 ∷ 0 ∷ 0 ∷ 0 ∷ 5 ∷ [])
    × (parse_ip (codes "::ffff:10.0.0.1") ≡ mapped_prefix ++ 10 ∷ 0 ∷ 0 ∷ 1 ∷ [])
    × (parse_ip (codes "fd00::5::1") ≡ [])
    × (parse_ip (codes "fd00:5") ≡ [])
unfolding parse_ip parse_ipv4_fields
parse_ip_six = (refl, refl, refl, refl)

parse_cidr_four :
    parse_cidr (codes "10.244.1.7/24")
    ≡ some (
      mapped_prefix ++ 10 ∷ 244 ∷ 1 ∷ 7 ∷ [],
      record { ip = 10 ∷ 244 ∷ 1 ∷ 0 ∷ []; ones = 24; bits = 32 },
    )
unfolding parse_cidr parse_ip parse_ipv4_fields mask
parse_cidr_four = refl
