-- ===== src/Allocator/Subnet/Returns.antt =====
-- pkg/allocator/subnet_allocator.go: the loop of parseAndExclude ends on IPv4 ranges.
use zstack_ovn_kubernetes.Base.{
  ℕ, zero, suc, ◌+◌, ◌-◌, ◌%◌, ◌^◌, ◌<◌, ◌≡◌, refl, ◌∙◌, true, false, ◌&&◌, ◌==◌, [], ◌∷◌, arith,
  All, length, length-drop, take, drop, Text, text_eq, text_eq_refl, trim_space, Bool-cases, inl,
  inr,
}
use zstack_ovn_kubernetes.Net.Bytes.{IsByte, place_value-lt, value-place}
use zstack_ovn_kubernetes.Allocator.Subnet.Ranges.{increment_ip-IsFour, to4_nil}
use zstack_ovn_kubernetes.Net.Ip.{Ip, to4, is_nil, ip_equal, value, mapped_prefix}
use zstack_ovn_kubernetes.Net.Parse.{parse_ip}
use zstack_ovn_kubernetes.Net.Util.{IsFour, to4-IsFour, next_ip, next_ip-value, increment-bytes}
use zstack_ovn_kubernetes.Allocator.Subnet.{SubnetAllocator, exclude_ip, increment_ip, ip_to_index}
use zstack_ovn_kubernetes.Allocator.Subnet.Errors.{Outcome, ok, err, panic, running}
use zstack_ovn_kubernetes.Allocator.Subnet.Valid.{IsValid, to4_of_four}
use zstack_ovn_kubernetes.Allocator.Subnet.Index.{same_four}
use zstack_ovn_kubernetes.Allocator.Subnet.Allocate.{Converts, ip_to_index-Converts}
use zstack_ovn_kubernetes.Allocator.Subnet.Excluding.{Keeps, exclude_ip-Keeps}
use zstack_ovn_kubernetes.Allocator.Subnet.Exclude.{or_skip, exclude_range, exclude_parts}

-- The call ends with a valid allocator.
abbrev pub Returns : Outcome SubnetAllocator → Type 0
Returns r = (b : SubnetAllocator) × (r ≡ ok b) × IsValid b

or_skip-Returns :
    {a : SubnetAllocator} (v : IsValid a) (ip : Ip) → Returns (or_skip a (exclude_ip a ip))
unfolding exclude_ip
or_skip-Returns {a} v ip = by_index (ip_to_index a ip) refl (ip_to_index-Converts v ip)
  where
    by_result :
        (r : Outcome SubnetAllocator) (b : SubnetAllocator)
        → r ≡ ok b
        → Keeps r
        → Returns (or_skip a r)
    by_result r b e k = rw e (b, refl, rw e at k)

    excluded : (i : ℕ) → ip_to_index a ip ≡ ok i → (b : SubnetAllocator) × (exclude_ip a ip ≡ ok b)
    excluded i e = rw (e, exclude_ip) (_, refl)

    by_index :
        (r : Outcome ℕ)
        → ip_to_index a ip ≡ r
        → Converts a ip r
        → Returns (or_skip a (exclude_ip a ip))
    by_index (ok i) e c =
        let (b, made) = excluded i e in by_result (exclude_ip a ip) b made (exclude_ip-Keeps v ip)
    by_index (err x) e c = rw (e, exclude_ip) (a, refl, v)
    by_index panic e c = absurd c
    by_index running e c = absurd c

ip_equal_four : (ip : Ip) → is_nil (to4 ip) ≡ false → ip_equal ip (to4 ip) ≡ true
unfolding ip_equal to4
ip_equal_four ip n = elim (Bool-cases (length ip == 4)) [
  | inl e ↦ rw e (ground (arith, text_eq_refl ip))
  | inr e ↦ elim (Bool-cases ((length ip == 16) && text_eq (take 12 ip) mapped_prefix)) [
    | inl f ↦
        let four : length (drop 12 ip) ≡ 4 = four_left f in
        rw (e, f) (ground (arith, four, f, text_eq_refl (drop 12 ip)))
    | inr f ↦ absurd (ground arith)
  ]
]
  where
    sixteen : ((length ip == 16) && text_eq (take 12 ip) mapped_prefix) ≡ true → length ip ≡ 16
    sixteen f = ground arith

    four_left :
        ((length ip == 16) && text_eq (take 12 ip) mapped_prefix) ≡ true → length (drop 12 ip) ≡ 4
    four_left f = omega (arith, length-drop 12 ip, sixteen f)

-- The address after one: its number goes up by one, modulo 2 ^ 32.
record Next (ip q : Ip) : Type 0 where
  some_four : is_nil (to4 q) ≡ false
  bytes : All IsByte (to4 q)
  number : value (to4 q) ≡ (value (to4 ip) + 1) % 2 ^ 32
  same : to4 q ≡ q

four_not_nil : (q : Ip) → IsFour q → is_nil q ≡ false
four_not_nil [] h = absurd (omega arith)
four_not_nil (b ∷ q) h = refl

increment_ip-Next :
    (ip : Ip) → is_nil (to4 ip) ≡ false → All IsByte (to4 ip) → Next ip (increment_ip ip)
unfolding increment_ip next_ip
increment_ip-Next ip n h =
    let four : IsFour (to4 ip) = to4-IsFour ip n in
    let (len, val) = next_ip-value (to4 ip) h in
    let whole : increment_ip ip ≡ next_ip (to4 ip) = rw n refl in
    let next_four : IsFour (increment_ip ip) = rw whole (len ∙ four) in
    let self : to4 (increment_ip ip) ≡ increment_ip ip = to4_of_four (increment_ip ip) next_four in
    record {
      some_four = rw self (four_not_nil (increment_ip ip) next_four);
      bytes = rw self (rw whole (increment-bytes (to4 ip) h));
      number = rw self (rw whole (rw four at val));
      same = self;
    }

value-lt : (q : Ip) → IsFour q → All IsByte q → value q < 2 ^ 32
value-lt q four h = rw (value-place q) (rw four at (place_value-lt q h))

exclude_range-Returns :
    (k rounds : ℕ) {a : SubnetAllocator} (v : IsValid a) (ip stop : Ip)
    → is_nil (to4 ip) ≡ false
    → All IsByte (to4 ip)
    → IsFour stop
    → All IsByte stop
    → (value (to4 ip) + k) % 2 ^ 32 ≡ value stop
    → k < rounds
    → Returns (exclude_range rounds a ip stop)
unfolding exclude_range
exclude_range-Returns k zero v ip stop n h four bytes e lt = absurd (omega arith)
exclude_range-Returns zero (suc rounds) {a} v ip stop n h four bytes e lt =
    let small : value (to4 ip) < 2 ^ 32 = value-lt (to4 ip) (to4-IsFour ip n) h in
    let same : to4 ip ≡ stop =
      same_four (to4 ip) stop (to4-IsFour ip n) four h bytes (omega (arith, e, small)) in
    let met : ip_equal ip stop ≡ true = rw same at (ip_equal_four ip n) in
    rw (met, exclude_range) (a, refl, v)
exclude_range-Returns (suc k) (suc rounds) {a} v ip stop n h four bytes e lt =
    elim (Bool-cases (ip_equal ip stop)) [
      | inl met ↦ rw (met, exclude_range) (a, refl, v)
      | inr more ↦
          let (b, made, w) = or_skip-Returns v ip in
          let next = increment_ip-Next ip n h in
          rw (more, exclude_range, made)
            (exclude_range-Returns k rounds w (increment_ip ip) stop next.some_four next.bytes four
              bytes (omega (arith, next.number, e)) (omega arith))
    ]

-- On a valid allocator, a range "p-q" of two IPv4 addresses ends with a valid allocator whenever the
-- loop may take more rounds than there are addresses from the first to behind the last, counted modulo
-- 2 ^ 32; so it ends for every such range.
pub exclude_parts-Returns :
    (a : SubnetAllocator) (rounds : ℕ) (spec p q : Text)
    → IsValid a
    → is_nil (to4 (parse_ip (trim_space p))) ≡ false
    → is_nil (to4 (parse_ip (trim_space q))) ≡ false
    → All IsByte (to4 (parse_ip (trim_space p)))
    → All IsByte (to4 (parse_ip (trim_space q)))
    → (value (to4 (parse_ip (trim_space q))) + 1 + 2 ^ 32 - value (to4 (parse_ip (trim_space p))))
        % 2 ^ 32
      < rounds
    → Returns (exclude_parts rounds a spec (p ∷ q ∷ []))
unfolding exclude_parts
exclude_parts-Returns a rounds spec p q v four_p four_q bytes_p bytes_q lt =
    let start = parse_ip (trim_space p) in
    let end = parse_ip (trim_space q) in
    let next = increment_ip-Next end four_q bytes_q in
    let small_p : value (to4 start) < 2 ^ 32 =
      value-lt (to4 start) (to4-IsFour start four_p) bytes_p in
    let stop_four : IsFour (increment_ip end) = increment_ip-IsFour end four_q in
    rw (not_nil_of start four_p, not_nil_of end four_q)
      (exclude_range-Returns ((value (to4 end) + 1 + 2 ^ 32 - value (to4 start)) % 2 ^ 32) rounds v
        start (increment_ip end) four_p bytes_p stop_four (rw next.same at next.bytes)
        (rw next.same at (
          reached (value (to4 start)) (value (to4 end)) (value (to4 (increment_ip end))) small_p
            next.number))
        lt)
  where
    not_nil_of : (ip : Ip) → is_nil (to4 ip) ≡ false → is_nil ip ≡ false
    not_nil_of [] h = absurd (ground (arith, to4_nil))
    not_nil_of (b ∷ bs) h = refl

    reached :
        (s e t : ℕ)
        → s < 2 ^ 32
        → t ≡ (e + 1) % 2 ^ 32
        → (s + (e + 1 + 2 ^ 32 - s) % 2 ^ 32) % 2 ^ 32 ≡ t
    reached s e t lt h = omega arith
