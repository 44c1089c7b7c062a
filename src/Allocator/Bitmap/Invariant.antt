-- ===== src/Allocator/Bitmap/Invariant.antt =====
-- pkg/allocator/bitmap.go: the invariant of a Bitmap, and that NewBitmap, Set and Clear keep it.
use Prim.Native.Nat.{bit_and, bit_and-bitwise}
use zstack_ovn_kubernetes.Base.{
  ℕ, zero, suc, ◌+◌, ◌-◌, ◌/◌, ◌%◌, ◌^◌, ◌≤◌, ◌<◌, ◌≡◌, refl, sym, replicate, Bool, true, false,
  ◌==◌, ==_iff, if◌then◌else◌, arith, All, All-replicate, length, length-set, length-replicate,
  get_or-replicate, ℤ, pos, negsuc, Bool-cases, inl, inr,
}
use zstack_ovn_kubernetes.Allocator.Bitmap.{
  Bitmap, ok, new_bitmap, test_bit, or_bit, and_not_bit, set_bit, clear_bit,
}
use zstack_ovn_kubernetes.Allocator.Bitmap.Bytes.{
  IsByte, or_bit-bytes, and_not_bit-bytes, test-or_bit, test-and_not_bit,
}

zero-bit_and : (b : ℕ) → bit_and 0 b ≡ 0
zero-bit_and b = bit_and-bitwise 0 b

-- How many numbers below a bound pass a test.
unfoldable pub count : (ℕ → Bool) → ℕ → ℕ
count p zero = 0
count p (suc n) = count p n + (if p n then 1 else 0)

pub count-le : (p : ℕ → Bool) (n : ℕ) → count p n ≤ n
unfolding count
count-le p zero = omega arith
count-le p (suc n) = ground (arith, count-le p n)

pub count_same : (p q : ℕ → Bool) (n : ℕ) → ((j : ℕ) → j < n → q j ≡ p j) → count q n ≡ count p n
unfolding count
count_same p q zero h = refl
count_same p q (suc n) h =
    ground (arith, h n (omega arith), count_same p q n (λ j l. h j (omega arith)))

-- Turning one test from false to true adds one to the count.
pub count_add :
    (p q : ℕ → Bool) (i n : ℕ)
    → i < n
    → p i ≡ false
    → ((j : ℕ) → q j ≡ (if i == j then true else p j))
    → count q n ≡ count p n + 1
unfolding count
count_add p q i zero l e h = elim l [ ]
count_add p q i (suc n) l e h = elim (Bool-cases (i == n)) [
  | inl last ↦ ground (arith, h n, count_same p q n (λ j m. ground (arith, h j)))
  | inr more ↦ ground (arith, h n, count_add p q i n (ground arith) e h)
]

pub record IsValid (b : Bitmap) : Type 0 where
  pub bytes : All IsByte b.bits
  pub room : length b.bits ≡ (b.size + 7) / 8
  pub counted : b.allocated ≡ count (test_bit b.bits) b.size

module _ {b : Bitmap} (v : IsValid b) where
  -- An index that passes the range check addresses a byte of the slice.
  pub in_room : (i : ℕ) → i < b.size → i / 8 < length b.bits
  in_room i h = omega (arith, v.room)

  or_bit-IsValid :
      (i : ℕ)
      → i < b.size
      → test_bit b.bits i ≡ false
      → IsValid (record b { bits = or_bit b.bits i; allocated = b.allocated + 1 })
  or_bit-IsValid i h e = record {
    bytes = or_bit-bytes b.bits v.bytes i;
    room = unfold or_bit in omega (arith, v.room, length-set b.bits (i / 8) _);
    counted = omega (
      arith,
      v.counted,
      count_add (test_bit b.bits) (test_bit (or_bit b.bits i)) i b.size h e
          (λ j. test-or_bit b.bits v.bytes i j (in_room i h)),
    );
  }

  back :
      (i j : ℕ)
      → i < b.size
      → test_bit b.bits i ≡ true
      → test_bit b.bits j ≡ (if i == j then true else test_bit (and_not_bit b.bits i) j)
  back i j h e = ground (arith, ==_iff i j, test-and_not_bit b.bits v.bytes i j (in_room i h))

  and_not_bit-IsValid :
      (i : ℕ)
      → i < b.size
      → test_bit b.bits i ≡ true
      → IsValid (record b { bits = and_not_bit b.bits i; allocated = b.allocated - 1 })
  and_not_bit-IsValid i h e = record {
    bytes = and_not_bit-bytes b.bits v.bytes i;
    room = unfold and_not_bit in omega (arith, v.room, length-set b.bits (i / 8) _);
    counted = omega (
      arith,
      v.counted,
      count_add (test_bit (and_not_bit b.bits i)) (test_bit b.bits) i b.size h
          (ground (arith, test-and_not_bit b.bits v.bytes i i (in_room i h))) (λ j. back i j h e),
    );
  }

  -- A call keeps the invariant: a successful Set, a successful Clear.
  pub set_bit-IsValid : (i : ℤ) (c : Bitmap) → set_bit b i ≡ ok c → IsValid c
  unfolding set_bit
  set_bit-IsValid (negsuc n) c e = cc
  set_bit-IsValid (pos i) c e = ground (arith, or_bit-IsValid i)

  pub clear_bit-IsValid : (i : ℤ) (c : Bitmap) → clear_bit b i ≡ ok c → IsValid c
  unfolding clear_bit
  clear_bit-IsValid (negsuc n) c e = cc
  clear_bit-IsValid (pos i) c e = ground (arith, and_not_bit-IsValid i)

pub test_bit-replicate : (n i : ℕ) → test_bit (replicate n 0) i ≡ false
unfolding test_bit
test_bit-replicate n i = rw (get_or-replicate {A = ℕ} n (i / 8) 0, zero-bit_and (2 ^ (i % 8)))

count_none : (p : ℕ → Bool) (n : ℕ) → ((i : ℕ) → p i ≡ false) → count p n ≡ 0
unfolding count
count_none p zero h = refl
count_none p (suc n) h = ground (arith, h n, count_none p n h)

pub new_bitmap-IsValid : (size : ℕ) → IsValid (new_bitmap size)
unfolding new_bitmap
new_bitmap-IsValid size = record {
  bytes = All-replicate IsByte ((size + 7) / 8) 0 (omega arith);
  room = length-replicate ((size + 7) / 8) 0;
  counted = sym (
      count_none (test_bit (replicate ((size + 7) / 8) 0)) size
        (test_bit-replicate ((size + 7) / 8)));
}

pub count_pos : (p : ℕ → Bool) (i n : ℕ) → i < n → p i ≡ true → 0 < count p n
unfolding count
count_pos p i zero l e = elim l [ ]
count_pos p i (suc n) l e = elim (Bool-cases (i == n)) [
  | inl last ↦ ground arith
  | inr more ↦ ground (arith, count_pos p i n (ground arith) e)
]
