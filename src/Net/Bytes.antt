-- ===== src/Net/Bytes.antt =====
-- Facts about addresses as big-endian numbers.
use native.Mathlib.Nat.{pow-suc}
use zstack_ovn_kubernetes.Base.{
  ℕ, ◌+◌, ◌*◌, ◌/◌, ◌%◌, ◌^◌, ◌<◌, ◌≡◌, ◌∙◌, List, [], ◌∷◌, arith, All, length,
}
use zstack_ovn_kubernetes.Net.Ip.{value_from, value, to_bytes}

abbrev pub IsByte : ℕ → Type 0
IsByte b = b < 256

abbrev pub quad : ℕ → ℕ → ℕ → ℕ → ℕ
quad a b c d = ((a * 256 + b) * 256 + c) * 256 + d

-- An IPv4 address in four bytes is the number that they spell.
pub to_bytes_four :
    (v : ℕ)
    → to_bytes 4 v ≡ (v / 16777216 % 256) ∷ (v / 65536 % 256) ∷ (v / 256 % 256) ∷ (v % 256) ∷ []
unfolding to_bytes
to_bytes_four v = ground arith

pub value-to_bytes : (v : ℕ) → v < 2 ^ 32 → value (to_bytes 4 v) ≡ v
unfolding value
value-to_bytes v h = rw to_bytes_four (omega arith)

pub to_bytes-value :
    (a b c d : ℕ)
    → a < 256
    → b < 256
    → c < 256
    → d < 256
    → to_bytes 4 (quad a b c d) ≡ a ∷ b ∷ c ∷ d ∷ []
to_bytes-value a b c d ha hb hc hd = rw to_bytes_four (ground arith)

-- The plain recursion behind the accumulator loop.
unfoldable pub place_value : List ℕ → ℕ
place_value [] = 0
place_value (b ∷ bs) = b * 256 ^ length bs + place_value bs

shift_mul : (acc b p : ℕ) → (acc * 256 + b) * p ≡ acc * (p * 256) + b * p
shift_mul acc b p = omega arith

value_from-place :
    (acc : ℕ) (bs : List ℕ) → value_from acc bs ≡ acc * 256 ^ length bs + place_value bs
unfolding value_from place_value
value_from-place acc [] = omega arith
value_from-place acc (b ∷ bs) =
    value_from-place (acc * 256 + b) bs
    ∙ rw (pow-suc 256 (length bs)) (omega (arith, shift_mul acc b (256 ^ length bs)))

pub value-place : (bs : List ℕ) → value bs ≡ place_value bs
unfolding value
value-place bs = omega (arith, value_from-place 0 bs)

pub place_value-lt : (bs : List ℕ) → All IsByte bs → place_value bs < 256 ^ length bs
unfolding place_value
place_value-lt [] h = omega arith
place_value-lt (b ∷ bs) h = grind (arith, place_value-lt bs h.1, pow-suc 256 (length bs))
