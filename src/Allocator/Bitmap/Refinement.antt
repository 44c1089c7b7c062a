-- ===== src/Allocator/Bitmap/Refinement.antt =====
-- pkg/allocator/bitmap.go against a set of indices: what each outcome of Set and of Clear means.
use zstack_ovn_kubernetes.Base.{
  ℕ, ◌+◌, ◌-◌, ◌/◌, ◌<◌, ◌≡◌, refl, Bool, true, false, ltb, ◌==◌, ==_iff, if◌then◌else◌, arith, ℤ,
  pos, negsuc, Bool-cases, inl, inr,
}
use zstack_ovn_kubernetes.Allocator.Bitmap.{
  Bitmap, Result, ok, err, out_of_range, already_set, test_bit, or_bit, and_not_bit, set_bit,
  clear_bit, is_set, new_bitmap,
}
use zstack_ovn_kubernetes.Allocator.Bitmap.Bytes.{test-or_bit, test-and_not_bit}
use zstack_ovn_kubernetes.Allocator.Bitmap.Invariant.{
  IsValid, in_room, set_bit-IsValid, clear_bit-IsValid, count_pos, test_bit-replicate,
}

-- The indices that a call may name.
abbrev pub InRange : Bitmap → ℤ → Type 0
InRange b (pos i) = i < b.size
InRange b (negsuc n) = ⊥

abbrev pub same_index : ℤ → ℤ → Bool
same_index (pos i) (pos j) = i == j
same_index (pos i) (negsuc n) = false
same_index (negsuc m) j = false

-- A successful Set adds its index to the set of allocated indices, which it was not in; a failed
-- one says why.
abbrev pub SetOutcome : Bitmap → ℤ → Result Bitmap → Type 0
SetOutcome b i (ok c) =
    InRange b i
    × (is_set b i ≡ false)
    × IsValid c
    × (c.size ≡ b.size)
    × (c.allocated ≡ b.allocated + 1)
    × ((j : ℤ) → is_set c j ≡ (if same_index i j then true else is_set b j))
SetOutcome b i (err (out_of_range k n)) = (k ≡ i) × (n ≡ b.size) × ¬ InRange b i
SetOutcome b i (err (already_set k)) = (pos k ≡ i) × InRange b i × (is_set b i ≡ true)

-- A successful Clear takes its index out; it fails only out of range.
abbrev pub ClearOutcome : Bitmap → ℤ → Result Bitmap → Type 0
ClearOutcome b i (ok c) =
    InRange b i
    × IsValid c
    × (c.size ≡ b.size)
    × (c.allocated + (if is_set b i then 1 else 0) ≡ b.allocated)
    × ((j : ℤ) → is_set c j ≡ (if same_index i j then false else is_set b j))
ClearOutcome b i (err (out_of_range k n)) = (k ≡ i) × (n ≡ b.size) × ¬ InRange b i
ClearOutcome b i (err (already_set k)) = ⊥

module _ (b : Bitmap) (v : IsValid b) where
  set_ok-is_set :
      (i : ℕ) (j : ℤ)
      → i < b.size
      → is_set (record b { bits = or_bit b.bits i; allocated = b.allocated + 1 }) j
        ≡ (if same_index (pos i) j then true else is_set b j)
  unfolding is_set
  set_ok-is_set i (negsuc n) h = refl
  set_ok-is_set i (pos j) h = ground (arith, test-or_bit b.bits v.bytes i j (in_room v i h))

  -- Set on a valid bitmap, at any int: it adds an index in range that was not in the set, keeps the
  -- bitmap valid and changes no other index; it says "already set" only of an index that is set, and
  -- "out of range" only of one that is not in range.
  pub set_bit-SetOutcome : (i : ℤ) → SetOutcome b i (set_bit b i)
  unfolding set_bit
  set_bit-SetOutcome (negsuc n) = (refl, refl, λ h. h)
  set_bit-SetOutcome (pos i) = elim (Bool-cases (ltb i b.size)) [
    | inl inside ↦ elim (Bool-cases (test_bit b.bits i)) [
      | inl old ↦ rw (inside, old) (refl, ground arith, unfold is_set in ground arith)
      | inr new ↦
          rw (inside, new)
            (
              ground arith,
              (unfold is_set in ground arith),
              set_bit-IsValid v (pos i) _ (rw (inside, new)),
              refl,
              refl,
              λ j. set_ok-is_set i j (ground arith),
            )
    ]
    | inr outside ↦ rw outside (refl, refl, ground arith)
  ]

  clear_ok-is_set :
      (i : ℕ) (j : ℤ)
      → i < b.size
      → is_set (record b { bits = and_not_bit b.bits i; allocated = b.allocated - 1 }) j
        ≡ (if same_index (pos i) j then false else is_set b j)
  unfolding is_set
  clear_ok-is_set i (negsuc n) h = refl
  clear_ok-is_set i (pos j) h = ground (arith, test-and_not_bit b.bits v.bytes i j (in_room v i h))

  clear_idle :
      (i : ℕ) (j : ℤ)
      → test_bit b.bits i ≡ false
      → is_set b j ≡ (if same_index (pos i) j then false else is_set b j)
  unfolding is_set
  clear_idle i (negsuc n) h = refl
  clear_idle i (pos j) h = ground (arith, ==_iff i j)

  -- Clear on a valid bitmap, at any int: it takes an index in range out of the set, whether or not it
  -- was in it, keeps the bitmap valid and changes no other index; it fails only out of range.
  pub clear_bit-ClearOutcome : (i : ℤ) → ClearOutcome b i (clear_bit b i)
  unfolding clear_bit
  clear_bit-ClearOutcome (negsuc n) = (refl, refl, λ h. h)
  clear_bit-ClearOutcome (pos i) = elim (Bool-cases (ltb i b.size)) [
    | inl inside ↦ elim (Bool-cases (test_bit b.bits i)) [
      | inl old ↦
          rw (inside, old)
            (
              ground arith,
              clear_bit-IsValid v (pos i) _ (rw (inside, old)),
              refl,
              (unfold is_set in
                  ground
                    (arith, v.counted, count_pos (test_bit b.bits) i b.size (ground arith) old)),
              λ j. clear_ok-is_set i j (ground arith),
            )
      | inr idle ↦
          rw (inside, idle)
            (ground arith, v, refl, (unfold is_set in ground arith), λ j. clear_idle i j idle)
    ]
    | inr outside ↦ rw outside (refl, refl, ground arith)
  ]

-- In a new bitmap of any size no index, in range or not, is set.
pub new_bitmap-empty : (size : ℕ) (i : ℤ) → is_set (new_bitmap size) i ≡ false
unfolding is_set new_bitmap
new_bitmap-empty size (negsuc n) = refl
new_bitmap-empty size (pos i) = ground (arith, test_bit-replicate ((size + 7) / 8) i)
