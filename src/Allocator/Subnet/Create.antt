-- ===== src/Allocator/Subnet/Create.antt =====
-- pkg/allocator/subnet_allocator.go: NewSubnetAllocator establishes the invariant on IPv4 subnets.
use native.Mathlib.Nat.{mul-mod_left, div-mul-le_self, div-lt_iff_lt-mul, mul-div_cancel}
use zstack_ovn_kubernetes.Base.{
  ℕ, zero, suc, ◌+◌, ◌-◌, ◌*◌, ◌/◌, ◌%◌, ◌^◌, ◌≤◌, ◌<◌, ◌≡◌, refl, sym, subst, ◌∙◌, ap, true, false,
  ◌&&◌, ◌||◌, List, ltb, leb, ◌==◌, ==_iff, arith, Bool-cases, inl, inr, length, Text, some,
  all_below, all_below_sound,
}
use zstack_ovn_kubernetes.Base.Dict.{lookup}
use zstack_ovn_kubernetes.Net.Ip.{Ip, IpNet, hosts, mask, mask_four, to_bytes}
use zstack_ovn_kubernetes.Net.Parse.{parse_cidr}
use zstack_ovn_kubernetes.Net.Parse.Four.{IsFourNet, parse_cidr-IsFourNet}
use zstack_ovn_kubernetes.Net.Bytes.{value-to_bytes}
use zstack_ovn_kubernetes.Allocator.Bitmap.{new_bitmap}
use zstack_ovn_kubernetes.Allocator.Bitmap.Invariant
use zstack_ovn_kubernetes.Allocator.Subnet.{SubnetAllocator, is_excluded}
use zstack_ovn_kubernetes.Allocator.Subnet.Errors.{ok}
use zstack_ovn_kubernetes.Allocator.Subnet.Valid.{IsValid}
use zstack_ovn_kubernetes.Allocator.Subnet.Exclude.{
  exclude_all, allocator_of, bare_allocator, usable_word, new_subnet_allocator,
}
use zstack_ovn_kubernetes.Allocator.Subnet.Excluding.{Keeps, >>=-Keeps, exclude_all-Keeps}

-- A prefix length splits the 32-bit numbers into 2 ^ ones blocks.
power_table : all_below 33 (λ k. 2 ^ k * 2 ^ (32 - k) == 2 ^ 32) ≡ true
unfolding all_below
power_table = refl

block_count : (k : ℕ) → k ≤ 32 → 2 ^ k * 2 ^ (32 - k) ≡ 2 ^ 32
block_count k h =
    (==_iff (2 ^ k * 2 ^ (32 - k)) (2 ^ 32)).0
      (all_below_sound 33 (λ n. 2 ^ n * 2 ^ (32 - n) == 2 ^ 32) k power_table (omega arith))

power_pos_table : all_below 33 (λ k. ltb 0 (2 ^ k) && leb (2 ^ k) (2 ^ 32)) ≡ true
unfolding all_below
power_pos_table = refl

power_range : (k : ℕ) → k ≤ 32 → (0 < 2 ^ k) × (2 ^ k ≤ 2 ^ 32)
power_range k h = ground (
  arith,
  all_below_sound 33 (λ n. ltb 0 (2 ^ n) && leb (2 ^ n) (2 ^ 32)) k power_pos_table (omega arith),
)

-- The network address of a block, for a block size that divides the whole range.
block_facts :
    (h c v : ℕ)
    → 0 < h
    → c * h ≡ 2 ^ 32
    → v < 2 ^ 32
    → (v / h * h % h ≡ 0) × (v / h * h ≤ v) × (v / h * h + h ≤ 2 ^ 32) × (v / h * h / h ≡ v / h)
block_facts h c v p e lt = (
  mul-mod_left (v / h) h,
  div-mul-le_self v h,
  block_end (v / h) c h ((div-lt_iff_lt-mul p).1 (rw e lt)) e,
  mul-div_cancel (v / h) p,
)
  where
    block_end : (q c h : ℕ) → q < c → c * h ≡ 2 ^ 32 → q * h + h ≤ 2 ^ 32
    block_end q c h l e = grind arith

-- The size test lets through the nets with at least one usable address.
usable_four :
    (n : IpNet)
    → n.bits ≡ 32
    → n.ones ≤ 32
    → (usable_word n == 0) || leb (2 ^ 63) (usable_word n) ≡ false
    → (usable_word n + 2 ≡ hosts n) × (0 < usable_word n) × (usable_word n < 2 ^ 32)
unfolding hosts
usable_four n b o h = ground (arith, b, rw (← b) at (power_range (32 - n.ones) (omega arith)))

length-to_bytes : (n v : ℕ) → length (to_bytes n v) ≡ n
unfolding to_bytes
length-to_bytes zero v = refl
length-to_bytes (suc n) v = ap suc (length-to_bytes n v)

module _ (n : IpNet) (f : IsFourNet n) where
  block : ℕ
  block = 2 ^ (32 - n.ones)

  start : ℕ
  start = f.masked.0 / 2 ^ (32 - n.ones) * 2 ^ (32 - n.ones)

  start_facts :
      (start % 2 ^ (32 - n.ones) ≡ 0)
      × (start + 2 ^ (32 - n.ones) ≤ 2 ^ 32)
      × (start < 2 ^ 32)
      × (start / 2 ^ (32 - n.ones) * 2 ^ (32 - n.ones) ≡ start)
  unfolding start
  start_facts =
      let facts =
        block_facts (2 ^ (32 - n.ones)) (2 ^ n.ones) f.masked.0
          (power_range (32 - n.ones) (omega arith)).0 (block_count n.ones f.ones_le) f.masked.1 in
      (
        facts.0,
        facts.2,
        omega (arith, facts.1, f.masked.1),
        ap (λ (q : ℕ). q * 2 ^ (32 - n.ones)) facts.3,
      )

  net_ip : n.ip ≡ to_bytes 4 start
  unfolding start
  net_ip = f.masked.2

  base_ip : mask (n.bits - n.ones) n.ip ≡ to_bytes 4 start
  base_ip =
      ap (λ (b : ℕ). mask (b - n.ones) n.ip) f.four_bits
      ∙ ap (mask (32 - n.ones)) net_ip
      ∙ mask_four (32 - n.ones) (to_bytes 4 start) (length-to_bytes 4 start)
      ∙ ap (λ (v : ℕ). to_bytes 4 (v / 2 ^ (32 - n.ones) * 2 ^ (32 - n.ones)))
          (value-to_bytes start start_facts.2)
      ∙ ap (to_bytes 4) start_facts.3

  hosts_four : hosts n ≡ 2 ^ (32 - n.ones)
  unfolding hosts
  hosts_four = rw f.four_bits

  bare_allocator-IsValid :
      (usable_word n == 0) || leb (2 ^ 63) (usable_word n) ≡ false → IsValid (bare_allocator n)
  bare_allocator-IsValid h =
      let (sized, _, _) = usable_four n f.four_bits f.ones_le h in
      record {
        network = net_ip ∙ sym base_ip;
        four = rw base_ip (length-to_bytes 4 start);
        aligned = rw (base_ip, value-to_bytes start start_facts.2, hosts_four) start_facts.0;
        fits = rw (base_ip, value-to_bytes start start_facts.2, hosts_four) start_facts.1;
        sized = sized;
        bitmap = Invariant.new_bitmap-IsValid (usable_word n);
        bitmap_size = unfold new_bitmap in refl;
        excluded = λ ip bytes k. absurd (none_excluded ip k);
      }
    where
      none_excluded : (ip : Ip) → is_excluded (bare_allocator n) ip ≡ true → ⊥
      none_excluded ip k = absurd (unfold lookup in cc)

  allocator_of-Keeps : (cidr : Text) → Keeps (allocator_of n cidr)
  unfolding allocator_of
  allocator_of-Keeps cidr =
      elim (Bool-cases ((usable_word n == 0) || leb (2 ^ 63) (usable_word n))) [
        | inl small ↦ rw small tt
        | inr fits ↦ elim (Bool-cases (leb (2 ^ 63) (usable_word n + 7))) [
          | inl long ↦ rw (fits, long) tt
          | inr short ↦ rw (fits, short) (bare_allocator-IsValid fits)
        ]
      ]

-- Whenever NewSubnetAllocator returns an allocator for an IPv4 CIDR text, whatever the exclusions,
-- the allocator satisfies the invariant.
pub new_subnet_allocator-IsValid :
    (rounds : ℕ) (cidr : Text) (excludes : List Text) (ip : Ip) (n : IpNet) (a : SubnetAllocator)
    → parse_cidr cidr ≡ some (ip, n)
    → n.bits ≡ 32
    → new_subnet_allocator rounds cidr excludes ≡ ok a
    → IsValid a
unfolding new_subnet_allocator
new_subnet_allocator-IsValid rounds cidr excludes ip n a p b e =
    subst Keeps (rw (p, new_subnet_allocator) at e) (
      >>=-Keeps (allocator_of n cidr) (λ c. exclude_all rounds c excludes)
        (allocator_of-Keeps n (parse_cidr-IsFourNet cidr ip n p b) cidr)
        (λ c w. exclude_all-Keeps rounds c excludes w))
