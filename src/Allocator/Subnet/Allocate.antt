-- ===== src/Allocator/Subnet/Allocate.antt =====
-- pkg/allocator/subnet_allocator.go: what AllocateNext, Allocate and Release do, on every branch.
use zstack_ovn_kubernetes.Base.{
  ℕ, ◌+◌, ◌-◌, ◌<◌, ◌≡◌, refl, subst, ◌∙◌, ap, Bool, true, false, not, ◌&&◌, [], ◌==◌,
  if◌then◌else◌, arith, All, Bool-cases, inl, inr, ℤ, pos, negsuc,
}
use zstack_ovn_kubernetes.Net.Ip.{Ip, to4, is_nil, contains, value}
use zstack_ovn_kubernetes.Net.Bytes.{IsByte}
use zstack_ovn_kubernetes.Allocator.Bitmap.{
  Bitmap, test_bit, set_bit, clear_bit, is_set, find_first_clear, available,
}
use zstack_ovn_kubernetes.Allocator.Bitmap
use zstack_ovn_kubernetes.Allocator.Bitmap.Invariant
use zstack_ovn_kubernetes.Allocator.Bitmap.Search.{
  FirstClear, find_first_clear-FirstClear, find_first_clear-available,
}
use zstack_ovn_kubernetes.Allocator.Bitmap.Refinement.{SetOutcome, same_index, set_bit-SetOutcome}
use zstack_ovn_kubernetes.Allocator.Subnet.{
  SubnetAllocator, int_to_ip, ip_to_index, index_to_ip, allocate_next, is_allocated, is_excluded,
  free,
}
use zstack_ovn_kubernetes.Allocator.Subnet.Errors.{
  Outcome, ok, err, panic, running, ip_out_of_range, subnet_exhausted, ◌>>=◌, lift_bitmap,
}
use zstack_ovn_kubernetes.Allocator.Subnet.Valid.{
  IsValid, base, in_block, contains_block, index_four, index_other,
}
use zstack_ovn_kubernetes.Allocator.Subnet.Index.{
  index_to_ip_lem, ip_to_index-int_to_ip, ip_to_index-value, int_to_ip-not_nil, value-int_to_ip,
  int_to_ip-bytes,
}

-- Two addresses are one IPv4 address.
abbrev pub same_address : Ip → Ip → Bool
same_address p q = not (is_nil (to4 q)) && (value (to4 p) == value (to4 q))

-- A conversion succeeds, or says "out of range"; it never panics.
abbrev pub Converts : SubnetAllocator → Ip → Outcome ℕ → Type 0
Converts a ip (ok i) = (is_nil (to4 ip) ≡ false) × (value (to4 ip) ≡ base a + i + 1) × (i < a.size)
Converts a ip (err e) = (q : Ip) × (e ≡ ip_out_of_range q)
Converts a ip panic = ⊥
Converts a ip running = ⊥

-- What a successful Set at an index does to the allocator.
abbrev pub Granted : SubnetAllocator → ℕ → Bitmap → Type 0
Granted a i c =
    (i < a.size)
    × (is_set a.bitmap (pos i) ≡ false)
    × IsValid (record a { bitmap = c })
    × (free (record a { bitmap = c }) + 1 ≡ free a)
    × ((j : ℤ) → is_set c j ≡ (if same_index (pos i) j then true else is_set a.bitmap j))

-- What AllocateNext promises. A granted address lies in the subnet, strictly between the network and
-- the broadcast address; it was neither allocated nor excluded; it is the lowest free one; and
-- exactly that address becomes allocated.
abbrev pub AllocateNextOutcome : SubnetAllocator → Outcome (SubnetAllocator × Ip) → Type 0
AllocateNextOutcome a (ok (b, ip)) =
    (is_nil (to4 ip) ≡ false)
    × IsValid b
    × (free b + 1 ≡ free a)
    × (contains a.subnet ip ≡ true)
    × (in_block a (value (to4 ip)) ≡ true)
    × (is_allocated a ip ≡ ok false)
    × (is_excluded a ip ≡ false)
    × ((q : Ip)
        → is_nil (to4 q) ≡ false
        → in_block a (value (to4 q)) ≡ true
        → value (to4 q) < value (to4 ip)
        → is_allocated a q ≡ ok true)
    × ((q : Ip) → is_allocated b q ≡ (if same_address ip q then ok true else is_allocated a q))
AllocateNextOutcome a (err e) = (e ≡ subnet_exhausted a.subnet) × (free a ≡ 0)
AllocateNextOutcome a panic = ⊥
AllocateNextOutcome a running = ⊥

pub ip_to_index-bitmap :
    (a : SubnetAllocator) (c : Bitmap) (q : Ip)
    → ip_to_index (record a { bitmap = c }) q ≡ ip_to_index a q
unfolding ip_to_index
ip_to_index-bitmap a c q = refl

module _ {a : SubnetAllocator} (v : IsValid a) where
  pub ip_to_index-Converts : (ip : Ip) → Converts a ip (ip_to_index a ip)
  ip_to_index-Converts ip = elim (Bool-cases (is_nil (to4 ip))) [
    | inl n ↦ rw (index_other v ip n) ([], refl)
    | inr n ↦ four n (ip_to_index a ip) refl
  ]
    where
      four : is_nil (to4 ip) ≡ false → (r : Outcome ℕ) → ip_to_index a ip ≡ r → Converts a ip r
      four n (ok i) e = ip_to_index-value v ip i e
      four n (err x) e = (to4 ip, ground (arith, index_four v ip n))
      four n panic e = absurd (ground (arith, index_four v ip n))
      four n running e = absurd (ground (arith, index_four v ip n))

  -- A new bitmap in which every excluded address is still set.
  pub with_bitmap :
      (b : Bitmap)
      → Invariant.IsValid b
      → b.size ≡ a.bitmap.size
      → ((ip : Ip) (i : ℕ)
          → All IsByte (to4 ip)
          → is_excluded a ip ≡ true
          → ip_to_index a ip ≡ ok i
          → is_set a.bitmap (pos i) ≡ true
          → is_set b (pos i) ≡ true)
      → IsValid (record a { bitmap = b })
  unfolding ip_to_index
  with_bitmap b ok_b same keep = record {
    network = v.network;
    four = v.four;
    aligned = v.aligned;
    fits = v.fits;
    sized = v.sized;
    bitmap = ok_b;
    bitmap_size = same ∙ v.bitmap_size;
    excluded =
        λ ip bytes h. (let (i, e, s) = v.excluded ip bytes h in (i, e, keep ip i bytes h e s));
  }

  -- How a change of the bitmap at one index shows through the addresses.
  pub is_allocated_update :
      (i : ℕ) (c : Bitmap) (bit : Bool)
      → i < a.size
      → ((j : ℤ) → is_set c j ≡ (if same_index (pos i) j then bit else is_set a.bitmap j))
      → (p q : Ip) → value (to4 p) ≡ base a + i + 1
      → is_allocated (record a { bitmap = c }) q
        ≡ (if same_address p q then ok bit else is_allocated a q)
  unfolding is_allocated
  is_allocated_update i c bit h view p q e = elim (Bool-cases (is_nil (to4 q))) [
    | inl n ↦ rw n (ground (arith, ip_to_index-bitmap a c q, index_other v q n))
    | inr n ↦
        rw (n, e)
          (ground (
            arith,
            ip_to_index-bitmap a c q,
            index_four v q n,
            v.sized,
            view (pos (value (to4 q) - base a - 1)),
          ))
  ]

  pub set_bit-Granted :
      (i : ℕ) (c : Bitmap) → set_bit a.bitmap (pos i) ≡ Bitmap.ok c → Granted a i c
  unfolding free available
  set_bit-Granted i c e =
      let out : SetOutcome a.bitmap (pos i) (Bitmap.ok c) =
        subst (SetOutcome a.bitmap (pos i)) e (set_bit-SetOutcome a.bitmap v.bitmap (pos i)) in
      (
        omega (arith, out.0, v.bitmap_size),
        out.1,
        with_bitmap c out.2 out.3 (λ ip j _ _ _ s. ground (arith, out.5 (pos j))),
        omega (arith, out.2.counted, Invariant.count-le (test_bit c.bits) c.size, out.3, out.4),
        out.5,
      )

  pub not_excluded :
      (ip : Ip) (i : ℕ)
      → All IsByte (to4 ip)
      → ip_to_index a ip ≡ ok i
      → is_set a.bitmap (pos i) ≡ false
      → is_excluded a ip ≡ false
  not_excluded ip i bytes e s = elim (Bool-cases (is_excluded a ip)) [
    | inl h ↦ absurd (let (j, f, t) = v.excluded ip bytes h in ground arith)
    | inr h ↦ h
  ]

  lower_taken :
      (i : ℕ)
      → ((j : ℕ) → j < i → test_bit a.bitmap.bits j ≡ true)
      → i < a.size
      → (q : Ip) → is_nil (to4 q) ≡ false
      → in_block a (value (to4 q)) ≡ true
      → value (to4 q) < base a + i + 1
      → is_allocated a q ≡ ok true
  unfolding is_allocated is_set
  lower_taken i below h q n inside less =
      ground (arith, index_four v q n, v.sized, v.bitmap_size, below (value (to4 q) - base a - 1))

  Granted-AllocateNextOutcome :
      (i : ℕ) (c : Bitmap)
      → ((j : ℕ) → j < i → test_bit a.bitmap.bits j ≡ true)
      → Granted a i c
      → AllocateNextOutcome a (ok (record a { bitmap = c }, int_to_ip (base a + i + 1)))
  Granted-AllocateNextOutcome i c below (h, clear, valid, less, view) =
      let at : value (to4 (int_to_ip (base a + i + 1))) ≡ base a + i + 1 =
        value-int_to_ip (base a + i + 1) (omega (arith, v.fits, v.sized)) in
      let index = ip_to_index-int_to_ip v i h in
      (
        int_to_ip-not_nil _,
        valid,
        less,
        contains_block v (int_to_ip (base a + i + 1)) (int_to_ip-not_nil _)
            (rw at (ground (arith, v.sized))),
        rw at (ground (arith, v.sized)),
        (unfold is_allocated in ground (arith, index, clear)),
        not_excluded (int_to_ip (base a + i + 1)) i (int_to_ip-bytes (base a + i + 1)) index clear,
        λ q n inside l. lower_taken i below h q n inside (rw at at l),
        λ q. is_allocated_update i c true h view (int_to_ip (base a + i + 1)) q at,
      )

  by_set :
      (i : ℕ)
      → FirstClear (test_bit a.bitmap.bits) a.bitmap.size (pos i)
      → (r : Bitmap.Result Bitmap) → set_bit a.bitmap (pos i) ≡ r
      → SetOutcome a.bitmap (pos i) r
      → AllocateNextOutcome a
          (lift_bitmap r >>= λ b. index_to_ip a i >>= λ ip. ok (record a { bitmap = b }, ip))
  unfolding is_set
  by_set i first (Bitmap.ok c) e out =
      let granted = set_bit-Granted i c e in
      rw (index_to_ip_lem v i granted.0) (Granted-AllocateNextOutcome i c first.2 granted)
  by_set i first (Bitmap.err (Bitmap.out_of_range k n)) e out = absurd (out.2 first.0)
  by_set i first (Bitmap.err (Bitmap.already_set k)) e out = absurd (ground (arith, first.1, out.2))

  -- AllocateNext on a valid allocator: a granted address lies strictly between the network and the
  -- broadcast address, was neither allocated nor excluded, is the lowest free one, and becomes
  -- allocated with nothing else changed; the only failure is "exhausted", when no address is free.
  pub allocate_next-AllocateNextOutcome : AllocateNextOutcome a (allocate_next a)
  unfolding allocate_next
  allocate_next-AllocateNextOutcome =
      by_search (find_first_clear a.bitmap) refl (find_first_clear-FirstClear a.bitmap)
    where
      by_search :
          (r : ℤ)
          → find_first_clear a.bitmap ≡ r
          → FirstClear (test_bit a.bitmap.bits) a.bitmap.size r
          → AllocateNextOutcome a (allocate_next a)
      by_search (negsuc n) e first =
          rw (e, allocate_next)
            (
              refl,
              (unfold free in
                  (find_first_clear-available a.bitmap v.bitmap).1.0 (e ∙ ap negsuc first.0)),
            )
      by_search (pos i) e first =
          rw (e, allocate_next)
            (by_set i first (set_bit a.bitmap (pos i)) refl
              (set_bit-SetOutcome a.bitmap v.bitmap (pos i)))
