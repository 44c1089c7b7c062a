-- ===== src/Allocator/Subnet/Valid.antt =====
-- pkg/allocator/subnet_allocator.go: the invariant of an allocator of an IPv4 subnet.
use zstack_ovn_kubernetes.Base.{
  ℕ, ◌+◌, ◌-◌, ◌/◌, ◌%◌, ◌^◌, ◌≤◌, ◌<◌, ◌≡◌, refl, Bool, true, false, ◌&&◌, [], ◌∷◌, ltb, ◌==◌,
  if◌then◌else◌, arith, All, pos,
}
use zstack_ovn_kubernetes.Net.Ip.{Ip, IpNet, to4, to16, is_nil, contains, value, hosts}
use zstack_ovn_kubernetes.Net.Bytes.{IsByte}
use zstack_ovn_kubernetes.Net.Util.{IsFour, to4-IsFour}
use zstack_ovn_kubernetes.Allocator.Bitmap.{is_set}
use zstack_ovn_kubernetes.Allocator.Bitmap.Invariant
use zstack_ovn_kubernetes.Allocator.Subnet.{SubnetAllocator, ip_to_int, ip_to_index, is_excluded}
use zstack_ovn_kubernetes.Allocator.Subnet.Errors.{ok, err, ip_out_of_range}

-- The network address and the number of addresses of an allocator's subnet.
abbrev pub base : SubnetAllocator → ℕ
base a = value a.base_ip

abbrev pub span : SubnetAllocator → ℕ
span a = hosts a.subnet

pub record IsValid (a : SubnetAllocator) : Type 0 where
  pub network : a.subnet.ip ≡ a.base_ip
  pub four : IsFour a.base_ip
  pub aligned : base a % span a ≡ 0
  pub fits : base a + span a ≤ 2 ^ 32
  pub sized : a.size + 2 ≡ span a
  pub bitmap : Invariant.IsValid a.bitmap
  pub bitmap_size : a.bitmap.size ≡ a.size
  pub excluded :
      (ip : Ip)
      → All IsByte (to4 ip)
      → is_excluded a ip ≡ true
      → (i : ℕ) × (ip_to_index a ip ≡ ok i) × (is_set a.bitmap (pos i) ≡ true)

pub to4_of_four : (ip : Ip) → IsFour ip → to4 ip ≡ ip
unfolding to4
to4_of_four ip h = ground arith

not_nil : (ip : Ip) → IsFour ip → is_nil ip ≡ false
not_nil [] h = absurd (omega arith)
not_nil (b ∷ bs) h = refl

nil_of : (ip : Ip) → is_nil ip ≡ true → ip ≡ []
nil_of [] h = refl
nil_of (b ∷ bs) h = absurd (ground arith)

-- Contains looks at the shortest form.
contains-to4 : (n : IpNet) (ip : Ip) → is_nil (to4 ip) ≡ false → contains n ip ≡ contains n (to4 ip)
unfolding contains
contains-to4 n ip h = rw (to4_of_four (to4 ip) (to4-IsFour ip h), h)

-- Addresses of one aligned block have the block's leading bits.
div_block : (h b v : ℕ) → 0 < h → b % h ≡ 0 → b ≤ v → v < b + h → v / h ≡ b / h
div_block h b v p e lo hi = grind arith

-- An index is given to the addresses strictly between the network and the broadcast address.
abbrev pub in_block : SubnetAllocator → ℕ → Bool
in_block a v = ltb (base a) v && ltb v (base a + span a - 1)

module _ {a : SubnetAllocator} (v : IsValid a) where
  contains_four : (x : Ip) → IsFour x → contains a.subnet x ≡ (value x / span a == base a / span a)
  unfolding contains
  contains_four x h = rw (
    v.network,
    to4_of_four x h,
    to4_of_four a.base_ip v.four,
    not_nil x h,
    not_nil a.base_ip v.four,
    h,
    v.four,
  )

  pub int_four : (x : Ip) → IsFour x → ip_to_int x ≡ ok (value x)
  unfolding ip_to_int
  int_four x h = rw (to4_of_four x h, not_nil x h)

  pub index_four :
      (ip : Ip)
      → is_nil (to4 ip) ≡ false
      → ip_to_index a ip ≡ (
          if in_block a (value (to4 ip))
          then ok (value (to4 ip) - base a - 1)
          else err (ip_out_of_range (to4 ip)))
  unfolding ip_to_index
  index_four ip n =
      rw
        (
          n,
          contains_four (to4 ip) (to4-IsFour ip n),
          int_four (to4 ip) (to4-IsFour ip n),
          to4_of_four a.base_ip v.four,
          not_nil a.base_ip v.four,
          int_four a.base_ip v.four,
        )
        (ground (arith, v.sized, v.aligned, div_block (span a) (base a) (value (to4 ip))))

  -- The nil address and IPv6 addresses are out of range, and nothing panics.
  pub index_other : (ip : Ip) → is_nil (to4 ip) ≡ true → ip_to_index a ip ≡ err (ip_out_of_range [])
  unfolding ip_to_index contains
  index_other ip n =
      rw
        (
          n,
          nil_of (to4 ip) n,
          v.network,
          to4_of_four a.base_ip v.four,
          not_nil a.base_ip v.four,
          v.four,
        )
        (unfold to4 to16 in refl)

  -- An address of the block is in the subnet.
  pub contains_block :
      (ip : Ip)
      → is_nil (to4 ip) ≡ false
      → in_block a (value (to4 ip)) ≡ true
      → contains a.subnet ip ≡ true
  contains_block ip n h =
      rw (contains-to4 a.subnet ip n, contains_four (to4 ip) (to4-IsFour ip n))
        (ground (arith, v.aligned, div_block (span a) (base a) (value (to4 ip))))
