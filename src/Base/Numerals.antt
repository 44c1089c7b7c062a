-- ===== src/Base/Numerals.antt =====
-- strconv.Atoi, and ParseInt in base 10 at 64 bits.
use Prim.Native.Nat.{ℕ, zero, suc, ◌+◌, ◌-◌, ◌*◌, ◌^◌, ◌<◌}
use mathlib.Core.Path.{◌≡◌, refl, subst}
use native.Mathlib.Omega.{arith}
use mathlib.Core.Bool.{Bool, true, false, ◌&&◌}
use mathlib.Core.List.{[], ◌∷◌}
use mathlib.Core.Option.{Option, none, some}
use zstack_ovn_kubernetes.Base.Tests.{either, ◌==◌, ltb, leb, if◌then◌else◌}
use zstack_ovn_kubernetes.Base.Int.{ℤ, pos, negsuc}
use zstack_ovn_kubernetes.Base.Strings.{Text, decimal}

abbrev pub is_digit : ℕ → Bool
is_digit c = leb b'0' c && leb c b'9'

-- The value of a text of digits after a value already read; `none` at any other byte.
unfoldable pub digits_from : ℕ → Text → Option ℕ
digits_from value [] = some value
digits_from value (c ∷ s) =
    let rest = digits_from (value * 10 + (c - b'0')) s in if is_digit c then rest else none

-- One digit at least.
unfoldable pub natural : Text → Option ℕ
unfolding digits_from
natural [] = none
natural (c ∷ s) = digits_from 0 (c ∷ s)

abbrev non_negative : Option ℕ → Option ℤ
non_negative none = none
non_negative (some n) = if ltb n (2 ^ 63) then some (pos n) else none

abbrev negated : Option ℕ → Option ℤ
negated none = none
negated (some zero) = some (pos 0)
negated (some (suc n)) = if ltb n (2 ^ 63) then some (negsuc n) else none

-- `none` is an error of syntax or of range.
unfoldable pub parse_int : Text → Option ℤ
unfolding natural
parse_int [] = none
parse_int (c ∷ s) =
    if c == b'-'
    then negated (natural s)
    else if c == b'+'
    then non_negative (natural s)
    else non_negative (natural (c ∷ s))

-- fmt's %d of an int.
abbrev pub decimal_int : ℤ → Text
decimal_int (pos n) = decimal n
decimal_int (negsuc n) = b'-' ∷ decimal (n + 1)

abbrev pub Int64 : ℤ → Type 0
Int64 (pos n) = n < 2 ^ 63
Int64 (negsuc n) = n < 2 ^ 63

abbrev Int64Option : Option ℤ → Type 0
Int64Option none = Unit {0}
Int64Option (some n) = Int64 n

ranged : (b : Bool) (n : ℤ) → (b ≡ true → Int64 n) → Int64Option (if b then some n else none)
ranged true n h = h refl
ranged false n h = tt

non_negative-Int64 : (o : Option ℕ) → Int64Option (non_negative o)
non_negative-Int64 none = tt
non_negative-Int64 (some n) = ranged (ltb n (2 ^ 63)) (pos n) (λ h. ground arith)

negated-Int64 : (o : Option ℕ) → Int64Option (negated o)
negated-Int64 none = tt
negated-Int64 (some zero) = omega arith
negated-Int64 (some (suc n)) = ranged (ltb n (2 ^ 63)) (negsuc n) (λ h. ground arith)

-- A number that is read fits 64 bits.
parse_int-Int64Option : (s : Text) → Int64Option (parse_int s)
unfolding parse_int
parse_int-Int64Option [] = tt
parse_int-Int64Option (c ∷ s) = either Int64Option (c == b'-') _ _ (negated-Int64 (natural s)) (
    either Int64Option (c == b'+') _ _ (non_negative-Int64 (natural s))
      (non_negative-Int64 (natural (c ∷ s))))

pub parse_int-Int64 : (s : Text) (n : ℤ) → parse_int s ≡ some n → Int64 n
parse_int-Int64 s n e = subst Int64Option e (parse_int-Int64Option s)
