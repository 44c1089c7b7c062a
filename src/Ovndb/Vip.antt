-- ===== src/Ovndb/Vip.antt =====
-- pkg/ovndb/load_balancer.go: the texts of virtual addresses and of backends.
pub mod Roundtrip
use zstack_ovn_kubernetes.Base.{
  ℕ, zero, suc, ◌+◌, Bool, true, false, List, [], ◌∷◌, ◌++◌, Text, codes, Option, none, some,
  if◌then◌else◌, has_prefix, is_empty, take, drop, decimal, contains_byte, join, split,
}

-- strings.LastIndex.
unfoldable pub last_index : Text → Text → Option ℕ
last_index [] sub = if is_empty sub then some 0 else none
last_index (c ∷ s) sub = elim (last_index s sub) [
  | some i ↦ some (suc i)
  | none ↦ if has_prefix (c ∷ s) sub then some 0 else none
]

-- BuildVIP, for a port that is not negative.
unfoldable pub build_vip : Text → ℕ → Text
build_vip ip port =
    if contains_byte b':' ip
    then b'[' ∷ (ip ++ (b']' ∷ b':' ∷ decimal port))
    else ip ++ (b':' ∷ decimal port)

abbrev cut_six : Text → Option ℕ → Option (Text × Text)
cut_six vip none = none
cut_six vip (some i) = some (drop 1 (take i vip), drop (i + 2) vip)

abbrev cut_four : Text → Option ℕ → Option (Text × Text)
cut_four vip none = none
cut_four vip (some i) = some (take i vip, drop (i + 1) vip)

-- ParseVIP, with none for its error.
unfoldable pub parse_vip : Text → Option (Text × Text)
unfolding last_index
parse_vip vip =
    if has_prefix vip (b'[' ∷ [])
    then cut_six vip (last_index vip (b']' ∷ b':' ∷ []))
    else cut_four vip (last_index vip (b':' ∷ []))

unfoldable pub build_backends : List Text → Text
build_backends backends = join backends (b',' ∷ [])

-- ParseBackends: nil of the empty text.
unfoldable pub parse_backends : Text → List Text
parse_backends [] = []
parse_backends (c ∷ s) = split (c ∷ s) b','
