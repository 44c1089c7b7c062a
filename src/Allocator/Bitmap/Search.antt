-- ===== src/Allocator/Bitmap/Search.antt =====
-- pkg/allocator/bitmap.go: FindFirstClear and Available.
use zstack_ovn_kubernetes.Base.{
  ℕ, zero, suc, ◌+◌, ◌-◌, ◌<◌, ◌≡◌, refl, ap, subst, ◌↔◌, Bool, true, false, List, ◌==◌, arith, ℤ,
  pos, negsuc, Bool-cases, inl, inr,
}
use zstack_ovn_kubernetes.Allocator.Bitmap.{Bitmap, test_bit, scan, find_first_clear, available}
use zstack_ovn_kubernetes.Allocator.Bitmap.Invariant.{IsValid, count, count-le}

-- What a search of the indices below a bound may answer: the lowest clear one, or -1 when all are set.
abbrev pub FirstClear : (ℕ → Bool) → ℕ → ℤ → Type 0
FirstClear p n (pos i) = (i < n) × (p i ≡ false) × ((j : ℕ) → j < i → p j ≡ true)
FirstClear p n (negsuc k) = (k ≡ 0) × ((j : ℕ) → j < n → p j ≡ true)

extend_set :
    (p : ℕ → Bool) (i : ℕ)
    → ((j : ℕ) → j < i → p j ≡ true)
    → p i ≡ true
    → (j : ℕ) → j < i + 1
    → p j ≡ true
extend_set p i below here j l = elim (Bool-cases (j == i)) [
  | inl e ↦ ground arith
  | inr e ↦ below j (ground arith)
]

scan-FirstClear :
    (bits : List ℕ) (rounds i n : ℕ)
    → i + rounds ≡ n
    → ((j : ℕ) → j < i → test_bit bits j ≡ true)
    → FirstClear (test_bit bits) n (scan bits rounds i)
unfolding scan
scan-FirstClear bits zero i n e below = (refl, λ j l. below j (omega arith))
scan-FirstClear bits (suc rounds) i n e below = elim (Bool-cases (test_bit bits i)) [
  | inl here ↦ rw here (
      scan-FirstClear bits rounds (i + 1) n (omega arith) (extend_set (test_bit bits) i below here))
  | inr here ↦ rw here (omega arith, here, below)
]

pub find_first_clear-FirstClear :
    (b : Bitmap) → FirstClear (test_bit b.bits) b.size (find_first_clear b)
unfolding find_first_clear
find_first_clear-FirstClear b =
    scan-FirstClear b.bits b.size 0 b.size (omega arith) (λ j l. absurd (omega arith))

count_all : (p : ℕ → Bool) (n : ℕ) → ((j : ℕ) → j < n → p j ≡ true) → count p n ≡ n
unfolding count
count_all p zero h = refl
count_all p (suc n) h = ground (arith, h n (omega arith), count_all p n (λ j l. h j (omega arith)))

count_gap : (p : ℕ → Bool) (i n : ℕ) → i < n → p i ≡ false → count p n < n
unfolding count
count_gap p i zero l e = elim l [ ]
count_gap p i (suc n) l e = elim (Bool-cases (i == n)) [
  | inl last ↦ ground (arith, count-le p n)
  | inr more ↦ ground (arith, count_gap p i n (ground arith) e)
]

-- On a valid bitmap FindFirstClear gives -1 exactly when Available is zero, and otherwise the
-- lowest index in range whose bit is clear.
pub find_first_clear-available :
    (b : Bitmap)
    → IsValid b
    → FirstClear (test_bit b.bits) b.size (find_first_clear b)
      × ((find_first_clear b ≡ negsuc 0) ↔ (available b ≡ 0))
unfolding available
find_first_clear-available b v = (
  find_first_clear-FirstClear b,
  (
    (λ e.
        let full : FirstClear (test_bit b.bits) b.size (negsuc 0) =
          subst (FirstClear (test_bit b.bits) b.size) e (find_first_clear-FirstClear b) in
        omega (arith, v.counted, count_all (test_bit b.bits) b.size full.1)),
    (λ e. none_left (find_first_clear b) (find_first_clear-FirstClear b) e),
  ),
)
  where
    none_left :
        (r : ℤ) → FirstClear (test_bit b.bits) b.size r → b.size - b.allocated ≡ 0 → r ≡ negsuc 0
    none_left (pos i) f e =
        absurd (omega (arith, v.counted, count_gap (test_bit b.bits) i b.size f.0 f.1))
    none_left (negsuc k) f e = ap negsuc f.0
