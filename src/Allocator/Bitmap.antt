-- ===== src/Allocator/Bitmap.antt =====
-- pkg/allocator/bitmap.go: Bitmap and its operations. A byte is a number below 256, and an `int`
-- argument may be negative. Each operation runs under the mutex, so it is one step.
pub mod Bytes
pub mod Invariant
pub mod Search
pub mod Refinement
use Prim.Native.Nat.{bit_and, bit_or}
use zstack_ovn_kubernetes.Base.{
  ℕ, zero, suc, ◌+◌, ◌-◌, ◌/◌, ◌%◌, ◌^◌, Bool, true, false, not, List, ltb, ◌==◌, if◌then◌else◌,
  get_or, set, replicate, ℤ, pos, negsuc,
}

pub record Bitmap : Type 0 where
  pub bits : List ℕ
  pub size : ℕ
  pub allocated : ℕ

pub data Error : Type 0 where
  out_of_range : ℤ → ℕ → Error
  already_set : ℕ → Error

pub data Result {ℓ} (A : Type ℓ) : Type ℓ where
  ok : A → Result A
  err : Error → Result A

-- A call that fails leaves the bitmap as it was.
abbrev pub after : Bitmap → Result Bitmap → Bitmap
after b (ok c) = c
after b (err e) = b

-- make([]byte, (size + 7) / 8).
unfoldable pub new_bitmap : ℕ → Bitmap
new_bitmap size = record { bits = replicate ((size + 7) / 8) 0; size = size; allocated = 0 }

-- b.bits[i/8] & (1 << (i%8)) != 0.
unfoldable pub test_bit : List ℕ → ℕ → Bool
test_bit bits i = not (bit_and (get_or bits (i / 8) 0) (2 ^ (i % 8)) == 0)

-- b.bits[i/8] |= 1 << (i%8).
unfoldable pub or_bit : List ℕ → ℕ → List ℕ
or_bit bits i = set bits (i / 8) (bit_or (get_or bits (i / 8) 0) (2 ^ (i % 8)))

-- b.bits[i/8] &^= 1 << (i%8): and with the complement of the mask.
unfoldable pub and_not_bit : List ℕ → ℕ → List ℕ
and_not_bit bits i = set bits (i / 8) (bit_and (get_or bits (i / 8) 0) (255 - 2 ^ (i % 8)))

unfoldable pub set_bit : Bitmap → ℤ → Result Bitmap
set_bit b (negsuc n) = err (out_of_range (negsuc n) b.size)
set_bit b (pos i) =
    if not (ltb i b.size)
    then err (out_of_range (pos i) b.size)
    else if test_bit b.bits i
    then err (already_set i)
    else ok (record b { bits = or_bit b.bits i; allocated = b.allocated + 1 })

unfoldable pub clear_bit : Bitmap → ℤ → Result Bitmap
clear_bit b (negsuc n) = err (out_of_range (negsuc n) b.size)
clear_bit b (pos i) =
    if not (ltb i b.size)
    then err (out_of_range (pos i) b.size)
    else ok (
        if test_bit b.bits i
        then record b { bits = and_not_bit b.bits i; allocated = b.allocated - 1 }
        else b)

unfoldable pub is_set : Bitmap → ℤ → Bool
is_set b (negsuc n) = false
is_set b (pos i) = if not (ltb i b.size) then false else test_bit b.bits i

-- for i := from; i < from + rounds; i++ { … }.
unfoldable pub scan : List ℕ → ℕ → ℕ → ℤ
scan bits zero i = negsuc 0
scan bits (suc rounds) i =
    let rest = scan bits rounds (i + 1) in if not (test_bit bits i) then pos i else rest

unfoldable pub find_first_clear : Bitmap → ℤ
unfolding scan
find_first_clear b = scan b.bits b.size 0

unfoldable pub available : Bitmap → ℕ
available b = b.size - b.allocated
