-- ===== src/Allocator/Bitmap/Bytes.antt =====
-- The bit operations of pkg/allocator/bitmap.go on one byte, by evaluation of every case, and then
-- on the byte slice.
use Prim.Native.Nat.{bit_and, bit_or}
use zstack_ovn_kubernetes.Base.{
  ℕ, ◌-◌, ◌/◌, ◌%◌, ◌^◌, ◌<◌, ◌≡◌, ◌≢◌, refl, sym, Bool, true, false, not, ◌&&◌, List, ltb, ◌==◌,
  ==_iff, if◌then◌else◌, get_or, arith, all_below, all_below_sound, All, length, get_or-set_self,
  get_or-set_ne, All-set, get_or-All, inl, inr, Bool-cases,
}
use zstack_ovn_kubernetes.Allocator.Bitmap.{test_bit, or_bit, and_not_bit}

abbrev byte_bit : ℕ → ℕ → Bool
byte_bit x k = not (bit_and x (2 ^ k) == 0)

abbrev same : Bool → Bool → Bool
same true b = b
same false b = not b

same→eq : (a b : Bool) → same a b ≡ true → a ≡ b
same→eq true b h = sym h
same→eq false b h = ground arith

-- What or-ing a bit into a byte, and masking it out, do to each bit.
abbrev or_row : ℕ → ℕ → ℕ → Bool
or_row x k j = same (byte_bit (bit_or x (2 ^ k)) j) (if k == j then true else byte_bit x j)

abbrev and_row : ℕ → ℕ → ℕ → Bool
and_row x k j = same (byte_bit (bit_and x (255 - 2 ^ k)) j) (if k == j then false else byte_bit x j)

or_table : all_below 256 (λ x. all_below 8 (λ k. all_below 8 (or_row x k))) ≡ true
unfolding all_below
or_table = refl

and_table : all_below 256 (λ x. all_below 8 (λ k. all_below 8 (and_row x k))) ≡ true
unfolding all_below
and_table = refl

range_table :
    all_below 256
      (λ x. all_below 8 (λ k. ltb (bit_or x (2 ^ k)) 256 && ltb (bit_and x (255 - 2 ^ k)) 256))
    ≡ true
unfolding all_below
range_table = refl

or_byte :
    (x k j : ℕ)
    → x < 256
    → k < 8
    → j < 8
    → byte_bit (bit_or x (2 ^ k)) j ≡ (if k == j then true else byte_bit x j)
or_byte x k j hx hk hj = same→eq _ _ (
    all_below_sound 8 (or_row x k) j
      (all_below_sound 8 (λ i. all_below 8 (or_row x i)) k
        (all_below_sound 256 (λ y. all_below 8 (λ i. all_below 8 (or_row y i))) x or_table hx) hk)
      hj)

and_byte :
    (x k j : ℕ)
    → x < 256
    → k < 8
    → j < 8
    → byte_bit (bit_and x (255 - 2 ^ k)) j ≡ (if k == j then false else byte_bit x j)
and_byte x k j hx hk hj = same→eq _ _ (
    all_below_sound 8 (and_row x k) j
      (all_below_sound 8 (λ i. all_below 8 (and_row x i)) k
        (all_below_sound 256 (λ y. all_below 8 (λ i. all_below 8 (and_row y i))) x and_table hx) hk)
      hj)

abbrev pub IsByte : ℕ → Type 0
IsByte x = x < 256

byte_range :
    (x k : ℕ) → x < 256 → k < 8 → (bit_or x (2 ^ k) < 256) × (bit_and x (255 - 2 ^ k) < 256)
byte_range x k hx hk = ground (arith, both)
  where
    row : ℕ → ℕ → Bool
    row y i = ltb (bit_or y (2 ^ i)) 256 && ltb (bit_and y (255 - 2 ^ i)) 256

    both : (ltb (bit_or x (2 ^ k)) 256 && ltb (bit_and x (255 - 2 ^ k)) 256) ≡ true
    both =
        all_below_sound 8 (row x) k
          (all_below_sound 256 (λ y. all_below 8 (row y)) x range_table hx) hk

-- The same two facts about a slice of bytes, at any two indices inside it.
module _ (bits : List ℕ) (bytes : All IsByte bits) where
  pub or_bit-bytes : (i : ℕ) → All IsByte (or_bit bits i)
  unfolding or_bit
  or_bit-bytes i =
      All-set IsByte bits (i / 8) _ bytes
        (byte_range (get_or bits (i / 8) 0) (i % 8)
          (get_or-All IsByte bits (i / 8) 0 bytes (omega arith)) (omega arith)).0

  pub and_not_bit-bytes : (i : ℕ) → All IsByte (and_not_bit bits i)
  unfolding and_not_bit
  and_not_bit-bytes i =
      All-set IsByte bits (i / 8) _ bytes
        (byte_range (get_or bits (i / 8) 0) (i % 8)
          (get_or-All IsByte bits (i / 8) 0 bytes (omega arith)) (omega arith)).1

  at_byte : (i : ℕ) → get_or bits i 0 < 256
  at_byte i = get_or-All IsByte bits i 0 bytes (omega arith)

  pub test-or_bit :
      (i j : ℕ)
      → i / 8 < length bits
      → test_bit (or_bit bits i) j ≡ (if i == j then true else test_bit bits j)
  unfolding test_bit or_bit
  test-or_bit i j h = elim (Bool-cases (i / 8 == j / 8)) [
    | inl e ↦
        let q : i / 8 ≡ j / 8 = (==_iff (i / 8) (j / 8)).0 e in
        rw (← q) (
          rw (get_or-set_self bits (i / 8) (bit_or (get_or bits (i / 8) 0) (2 ^ (i % 8))) 0 h) (
            rw
              (or_byte (get_or bits (i / 8) 0) (i % 8) (j % 8) (at_byte (i / 8)) (omega arith)
                (omega arith))
              (ground arith)))
    | inr e ↦
        let apart : i / 8 ≢ j / 8 = ground arith in
        rw
          (get_or-set_ne bits (i / 8) (j / 8) (bit_or (get_or bits (i / 8) 0) (2 ^ (i % 8))) 0
            apart)
          (ground arith)
  ]

  pub test-and_not_bit :
      (i j : ℕ)
      → i / 8 < length bits
      → test_bit (and_not_bit bits i) j ≡ (if i == j then false else test_bit bits j)
  unfolding test_bit and_not_bit
  test-and_not_bit i j h = elim (Bool-cases (i / 8 == j / 8)) [
    | inl e ↦
        let q : i / 8 ≡ j / 8 = (==_iff (i / 8) (j / 8)).0 e in
        rw (← q) (
          rw
            (get_or-set_self bits (i / 8) (bit_and (get_or bits (i / 8) 0) (255 - 2 ^ (i % 8))) 0 h)
            (rw
              (and_byte (get_or bits (i / 8) 0) (i % 8) (j % 8) (at_byte (i / 8)) (omega arith)
                (omega arith))
              (ground arith)))
    | inr e ↦
        let apart : i / 8 ≢ j / 8 = ground arith in
        rw
          (get_or-set_ne bits (i / 8) (j / 8) (bit_and (get_or bits (i / 8) 0) (255 - 2 ^ (i % 8)))
            0 apart)
          (ground arith)
  ]
