-- ===== src/Allocator/Subnet/Release.antt =====
-- pkg/allocator/subnet_allocator.go: what Allocate and Release do, on every branch.
use zstack_ovn_kubernetes.Base.{
  is_some, ℕ, ◌+◌, ◌<◌, ◌≡◌, ◌≢◌, refl, sym, ◌∙◌, ap, Bool, true, false, not, ◌&&◌, if◌then◌else◌,
  arith, All, Bool-cases, inl, inr, pos,
}
use zstack_ovn_kubernetes.Base.Dict.{lookup}
use zstack_ovn_kubernetes.Net.Ip.{Ip, to4, is_nil, value}
use zstack_ovn_kubernetes.Net.Bytes.{IsByte}
use zstack_ovn_kubernetes.Net.Util.{to4-IsFour}
use zstack_ovn_kubernetes.Allocator.Subnet.Index.{ip_to_index-value, same_four}
use zstack_ovn_kubernetes.Allocator.Bitmap.{Bitmap, test_bit, set_bit, clear_bit, is_set, available}
use zstack_ovn_kubernetes.Allocator.Bitmap
use zstack_ovn_kubernetes.Allocator.Bitmap.Invariant
use zstack_ovn_kubernetes.Allocator.Bitmap.Refinement.{
  SetOutcome, ClearOutcome, set_bit-SetOutcome, clear_bit-ClearOutcome,
}
use zstack_ovn_kubernetes.Allocator.Subnet.{
  SubnetAllocator, ip_to_index, allocate, release, is_allocated, is_excluded, shortest, free,
}
use zstack_ovn_kubernetes.Allocator.Subnet.Errors.{
  Outcome, ok, err, panic, running, Error, ip_out_of_range, ip_already_allocated, excluded_ip,
  ◌>>=◌, lift_bitmap,
}
use zstack_ovn_kubernetes.Allocator.Subnet.Valid.{IsValid, base, in_block, index_four, index_other}
use zstack_ovn_kubernetes.Allocator.Subnet.Allocate.{
  Converts, ip_to_index-Converts, with_bitmap, is_allocated_update, set_bit-Granted, same_address,
}

-- The addresses that can be allocated at all.
abbrev pub allocatable : SubnetAllocator → Ip → Bool
allocatable a ip = not (is_nil (to4 ip)) && in_block a (value (to4 ip))

abbrev pub is_true : Outcome Bool → Bool
is_true (ok b) = b
is_true _ = false

abbrev pub held : SubnetAllocator → Ip → Bool
held a ip = is_true (is_allocated a ip)

-- Allocate takes exactly the named address, or says that it lies outside or is taken.
abbrev pub AllocateOutcome : SubnetAllocator → Ip → Outcome SubnetAllocator → Type 0
AllocateOutcome a ip (ok b) =
    (allocatable a ip ≡ true)
    × (held a ip ≡ false)
    × IsValid b
    × (free b + 1 ≡ free a)
    × ((q : Ip) → is_allocated b q ≡ (if same_address ip q then ok true else is_allocated a q))
AllocateOutcome a ip (err (ip_out_of_range q)) = allocatable a ip ≡ false
AllocateOutcome a ip (err (ip_already_allocated q)) =
    (q ≡ ip) × (allocatable a ip ≡ true) × (held a ip ≡ true)
AllocateOutcome a ip _ = ⊥

-- Release gives exactly the named address back, whether or not it was taken; it refuses an excluded
-- address and one outside.
abbrev pub ReleaseOutcome : SubnetAllocator → Ip → Outcome SubnetAllocator → Type 0
ReleaseOutcome a ip (ok b) =
    (is_excluded a ip ≡ false)
    × (allocatable a ip ≡ true)
    × IsValid b
    × (free b ≡ free a + (if held a ip then 1 else 0))
    × ((q : Ip) → is_allocated b q ≡ (if same_address ip q then ok false else is_allocated a q))
ReleaseOutcome a ip (err (excluded_ip q)) = (q ≡ ip) × (is_excluded a ip ≡ true)
ReleaseOutcome a ip (err (ip_out_of_range q)) =
    (is_excluded a ip ≡ false) × (allocatable a ip ≡ false)
ReleaseOutcome a ip _ = ⊥

module _ {a : SubnetAllocator} (v : IsValid a) where
  index_allocatable : (ip : Ip) (i : ℕ) → ip_to_index a ip ≡ ok i → allocatable a ip ≡ true
  index_allocatable ip i e = elim (Bool-cases (is_nil (to4 ip))) [
    | inl n ↦ absurd (ground (arith, index_other v ip n))
    | inr n ↦ ground (arith, index_four v ip n)
  ]

  refused_allocatable : (ip : Ip) (x : Error) → ip_to_index a ip ≡ err x → allocatable a ip ≡ false
  refused_allocatable ip x e = elim (Bool-cases (is_nil (to4 ip))) [
    | inl n ↦ rw n
    | inr n ↦ ground (arith, index_four v ip n)
  ]

  held_index : (ip : Ip) (i : ℕ) → ip_to_index a ip ≡ ok i → held a ip ≡ is_set a.bitmap (pos i)
  unfolding is_allocated
  held_index ip i e = rw (e, is_allocated)

  Granted-AllocateOutcome :
      (ip : Ip) (i : ℕ) (r : Bitmap.Result Bitmap)
      → ip_to_index a ip ≡ ok i
      → value (to4 ip) ≡ base a + i + 1
      → is_set a.bitmap (pos i) ≡ false
      → set_bit a.bitmap (pos i) ≡ r
      → SetOutcome a.bitmap (pos i) r
      → i < a.size
      → AllocateOutcome a ip (lift_bitmap r >>= λ b. ok (record a { bitmap = b }))
  Granted-AllocateOutcome ip i (Bitmap.ok c) e val clear s out h =
      let granted = set_bit-Granted v i c s in
      (
        index_allocatable ip i e,
        held_index ip i e ∙ clear,
        granted.2,
        granted.3,
        λ q. is_allocated_update v i c true granted.0 granted.4 ip q val,
      )
  Granted-AllocateOutcome ip i (Bitmap.err (Bitmap.out_of_range k n)) e val clear s out h =
      absurd (out.2 (omega (arith, v.bitmap_size)))
  Granted-AllocateOutcome ip i (Bitmap.err (Bitmap.already_set k)) e val clear s out h =
      absurd (ground arith)

  -- Allocate on a valid allocator, for any address: it takes exactly the named address, which was free;
  -- it says "already allocated" of an address that is taken and "out of range" of one that the subnet
  -- does not allocate, and there is no other outcome.
  pub allocate-AllocateOutcome : (ip : Ip) → AllocateOutcome a ip (allocate a ip)
  unfolding allocate
  allocate-AllocateOutcome ip = by_index (ip_to_index a ip) refl (ip_to_index-Converts v ip)
    where
      by_index :
          (r : Outcome ℕ)
          → ip_to_index a ip ≡ r
          → Converts a ip r
          → AllocateOutcome a ip (allocate a ip)
      by_index (ok i) e conv = elim (Bool-cases (is_set a.bitmap (pos i))) [
        | inl old ↦ rw (e, allocate, old) (refl, index_allocatable ip i e, held_index ip i e ∙ old)
        | inr new ↦
            rw (e, allocate, new)
              (Granted-AllocateOutcome ip i (set_bit a.bitmap (pos i)) e conv.1 new refl
                (set_bit-SetOutcome a.bitmap v.bitmap (pos i)) conv.2)
      ]
      by_index (err x) e conv = rw (e, allocate, conv.1) (refused_allocatable ip x e)
      by_index panic e conv = absurd conv
      by_index running e conv = absurd conv

  -- An excluded address does not share its index with one that is not excluded.
  excluded_apart :
      (ip p : Ip) (i : ℕ)
      → All IsByte (to4 ip)
      → All IsByte (to4 p)
      → is_excluded a ip ≡ false
      → is_excluded a p ≡ true
      → ip_to_index a ip ≡ ok i
      → ip_to_index a p ≢ ok i
  excluded_apart ip p i bytes bp out x e f =
      let (n, val, _) = ip_to_index-value v ip i e in
      let (n', val', _) = ip_to_index-value v p i f in
      let same =
        same_four (to4 ip) (to4 p) (to4-IsFour ip n) (to4-IsFour p n') bytes bp (val ∙ sym val') in
      let keys : shortest p ≡ shortest ip = rw (n, n') (sym same) in
      let key : is_excluded a p ≡ is_excluded a ip =
        ap (λ (k : Ip). is_some (lookup k a.exclude_ips)) keys in
      absurd (ground (arith, key))

  cleared-ReleaseOutcome :
      (ip : Ip) (i : ℕ) (r : Bitmap.Result Bitmap)
      → All IsByte (to4 ip)
      → is_excluded a ip ≡ false
      → ip_to_index a ip ≡ ok i
      → value (to4 ip) ≡ base a + i + 1
      → ClearOutcome a.bitmap (pos i) r
      → i < a.size
      → ReleaseOutcome a ip (lift_bitmap r >>= λ b. ok (record a { bitmap = b }))
  cleared-ReleaseOutcome ip i (Bitmap.ok c) bytes free_ip e val out h = (
    free_ip,
    index_allocatable ip i e,
    with_bitmap v c out.1 out.2 (λ p j bp x f s.
        ground (arith, out.4 (pos j), excluded_apart ip p i bytes bp free_ip x e, f)),
    (unfold free available in
        rw (held_index ip i e) (
          omega (
            arith,
            out.2,
            out.3,
            Invariant.count-le (test_bit a.bitmap.bits) a.bitmap.size,
            v.bitmap.counted,
          ))),
    λ q. is_allocated_update v i c false h out.4 ip q val,
  )
  cleared-ReleaseOutcome ip i (Bitmap.err (Bitmap.out_of_range k n)) bytes free_ip e val out h =
      absurd (out.2 (omega (arith, v.bitmap_size)))
  cleared-ReleaseOutcome ip i (Bitmap.err (Bitmap.already_set k)) bytes free_ip e val out h =
      absurd out

  -- Release on a valid allocator, for an address of bytes: it frees exactly the named address, whether or
  -- not it was taken; it refuses an excluded address and one that the subnet does not allocate.
  pub release-ReleaseOutcome : (ip : Ip) → All IsByte (to4 ip) → ReleaseOutcome a ip (release a ip)
  unfolding release
  release-ReleaseOutcome ip bytes = elim (Bool-cases (is_excluded a ip)) [
    | inl kept ↦ rw kept (refl, kept)
    | inr gone ↦ by_index gone (ip_to_index a ip) refl (ip_to_index-Converts v ip)
  ]
    where
      by_index :
          is_excluded a ip ≡ false
          → (r : Outcome ℕ) → ip_to_index a ip ≡ r
          → Converts a ip r
          → ReleaseOutcome a ip (release a ip)
      by_index gone (ok i) e conv =
          rw (gone, e, release)
            (cleared-ReleaseOutcome ip i (clear_bit a.bitmap (pos i)) bytes gone e conv.1
              (clear_bit-ClearOutcome a.bitmap v.bitmap (pos i)) conv.2)
      by_index gone (err x) e conv =
          rw (gone, e, release, conv.1) (gone, refused_allocatable ip x e)
      by_index gone panic e conv = absurd conv
      by_index gone running e conv = absurd conv
