-- ===== src/Base/Splitting.antt =====
-- strings.Split undoes strings.Join with a one-byte separator that no part contains.
use Prim.Native.Nat.{ℕ}
use mathlib.Core.Path.{◌≡◌, refl, ap, ◌∙◌}
use mathlib.Core.Bool.{false}
use mathlib.Core.List.{List, [], ◌∷◌, ◌++◌}
use native.Mathlib.Omega.{arith}
use zstack_ovn_kubernetes.Base.Lists.{All}
use zstack_ovn_kubernetes.Base.Strings.{Text, split, join, contains_byte}

module _ (sep : ℕ) where
  split_one : (s : Text) → contains_byte sep s ≡ false → split s sep ≡ s ∷ []
  unfolding split contains_byte
  split_one [] h = refl
  split_one (c ∷ s) h =
      let rest : split s sep ≡ s ∷ [] = split_one s (ground arith) in rw rest (ground arith)

  split_more :
      (s t : Text) → contains_byte sep s ≡ false → split (s ++ (sep ∷ t)) sep ≡ s ∷ split t sep
  unfolding split contains_byte
  split_more [] t h = ground arith
  split_more (c ∷ s) t h =
      let rest : split (s ++ (sep ∷ t)) sep ≡ s ∷ split t sep = split_more s t (ground arith) in
      rw rest (ground arith)

  pub split-join_parts :
      (p : Text) (ps : List Text)
      → All (λ q. contains_byte sep q ≡ false) (p ∷ ps)
      → split (join (p ∷ ps) (sep ∷ [])) sep ≡ p ∷ ps
  unfolding join
  split-join_parts p [] h = split_one p h.0
  split-join_parts p (q ∷ ps) h =
      split_more p (join (q ∷ ps) (sep ∷ [])) h.0 ∙ ap (λ v. p ∷ v) (split-join_parts q ps h.1)
