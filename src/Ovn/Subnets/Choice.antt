-- ===== src/Ovn/Subnets/Choice.antt =====
-- pkg/ovn/pod_controller.go: which subnet findSubnetForPod gives a pod.
use zstack_ovn_kubernetes.Base.{
  ◌≡◌, refl, Bool, true, false, ◌&&◌, ◌||◌, List, [], ◌∷◌, Text, codes, Option, none, some,
  if◌then◌else◌, Bool-cases, inl, inr, ◌⊎◌, arith,
}
use zstack_ovn_kubernetes.Base.Dict.{Dict, lookup}
use zstack_ovn_kubernetes.Ovn.Subnets.{
  Subnet, Selection, chosen, no_subnet, not_found, not_active, list_failed, is_active, has_text,
  pick_subnet, first_active, from_pick, select_listed, select_named, select_annotated,
  find_subnet_for_pod,
}

abbrev pub Among : Subnet → List Subnet → Type 0
Among s [] = ⊥
Among s (x ∷ subnets) = (s ≡ x) ⊎ Among s subnets

unfoldable pub any_active : (Subnet → Bool) → List Subnet → Bool
any_active p [] = false
any_active p (s ∷ subnets) = (is_active s && p s) || any_active p subnets

abbrev pub serves : Text → Subnet → Bool
serves ns s = has_text s.namespaces ns

abbrev pub marked_default : Subnet → Bool
marked_default s = s.is_default

-- A subnet of the list that is active and serves the namespace; or an active default, where no active
-- one serves it; or any active one, where there is no active default either. No subnet means that none
-- of the list is active.
abbrev pub ListedOutcome : Text → List Subnet → Selection → Type 0
ListedOutcome ns subnets (chosen s) =
    Among s subnets
    × (is_active s ≡ true)
    × ((serves ns s ≡ true)
        ⊎ ((any_active (serves ns) subnets ≡ false)
            × ((s.is_default ≡ true) ⊎ (any_active marked_default subnets ≡ false))))
ListedOutcome ns subnets no_subnet = any_active (λ s. true) subnets ≡ false
ListedOutcome ns subnets r = ⊥

PickOutcome : Text → Option Subnet → List Subnet → Option Subnet × Option Subnet → Type 0
PickOutcome ns d subnets (some s, e) = Among s subnets × (is_active s ≡ true) × (serves ns s ≡ true)
PickOutcome ns d subnets (none, some s) =
    (any_active (serves ns) subnets ≡ false)
    × ((d ≡ some s) ⊎ (Among s subnets × (is_active s ≡ true) × (s.is_default ≡ true)))
PickOutcome ns d subnets (none, none) =
    (any_active (serves ns) subnets ≡ false)
    × (any_active marked_default subnets ≡ false)
    × (d ≡ none)

-- Passing over a subnet that is not active, or that does not serve the namespace.
skip_inactive :
    (ns : Text) (d : Option Subnet) (s : Subnet) (subnets : List Subnet)
    (r : Option Subnet × Option Subnet)
    → is_active s ≡ false
    → PickOutcome ns d subnets r
    → PickOutcome ns d (s ∷ subnets) r
unfolding PickOutcome any_active
skip_inactive ns d s subnets (some x, e) off (m, a, v) = (inr m, a, v)
skip_inactive ns d s subnets (none, some x) off (n, inl e) = (ground arith, inl e)
skip_inactive ns d s subnets (none, some x) off (n, inr (m, a, v)) =
    (ground arith, inr (inr m, a, v))
skip_inactive ns d s subnets (none, none) off (n, m, e) = (ground arith, ground arith, e)

skip_default :
    (ns : Text) (d : Option Subnet) (s : Subnet) (subnets : List Subnet)
    (r : Option Subnet × Option Subnet)
    → is_active s ≡ true
    → serves ns s ≡ false
    → s.is_default ≡ true
    → PickOutcome ns (some s) subnets r
    → PickOutcome ns d (s ∷ subnets) r
unfolding PickOutcome any_active
skip_default ns d s subnets (some x, e) on no_ns def (m, a, v) = (inr m, a, v)
skip_default ns d s subnets (none, some x) on no_ns def (n, inl e) =
    let same : x ≡ s = cc in (ground arith, inr (inl same, rw same on, rw same def))
skip_default ns d s subnets (none, some x) on no_ns def (n, inr (m, a, v)) =
    (ground arith, inr (inr m, a, v))
skip_default ns d s subnets (none, none) on no_ns def (n, m, e) = absurd cc

skip_plain :
    (ns : Text) (d : Option Subnet) (s : Subnet) (subnets : List Subnet)
    (r : Option Subnet × Option Subnet)
    → is_active s ≡ true
    → serves ns s ≡ false
    → s.is_default ≡ false
    → PickOutcome ns d subnets r
    → PickOutcome ns d (s ∷ subnets) r
unfolding PickOutcome any_active
skip_plain ns d s subnets (some x, e) on no_ns def (m, a, v) = (inr m, a, v)
skip_plain ns d s subnets (none, some x) on no_ns def (n, inl e) = (ground arith, inl e)
skip_plain ns d s subnets (none, some x) on no_ns def (n, inr (m, a, v)) =
    (ground arith, inr (inr m, a, v))
skip_plain ns d s subnets (none, none) on no_ns def (n, m, e) = (ground arith, ground arith, e)

pick_subnet-PickOutcome :
    (ns : Text) (d : Option Subnet) (subnets : List Subnet)
    → PickOutcome ns d subnets (pick_subnet ns d subnets)
unfolding pick_subnet PickOutcome any_active
pick_subnet-PickOutcome ns none [] = (refl, refl, refl)
pick_subnet-PickOutcome ns (some s) [] = (refl, inl refl)
pick_subnet-PickOutcome ns d (s ∷ subnets) = elim (Bool-cases (is_active s)) [
  | inr off ↦
      rw (off, pick_subnet)
        (skip_inactive ns d s subnets (pick_subnet ns d subnets) off
          (pick_subnet-PickOutcome ns d subnets))
  | inl on ↦ elim (Bool-cases (has_text s.namespaces ns)) [
    | inl here ↦ rw (on, here, pick_subnet) (inl refl, on, here)
    | inr away ↦
        rw (on, away, pick_subnet)
          (by_default on away s.is_default refl (pick_subnet-PickOutcome ns (some s) subnets)
            (pick_subnet-PickOutcome ns d subnets))
  ]
]
  where
    by_default :
        is_active s ≡ true
        → serves ns s ≡ false
        → (b : Bool) → s.is_default ≡ b
        → PickOutcome ns (some s) subnets (pick_subnet ns (some s) subnets)
        → PickOutcome ns d subnets (pick_subnet ns d subnets)
        → PickOutcome ns d (s ∷ subnets) (pick_subnet ns (if b then some s else d) subnets)
    by_default on away true e h k =
        skip_default ns d s subnets (pick_subnet ns (some s) subnets) on away e h
    by_default on away false e h k =
        skip_plain ns d s subnets (pick_subnet ns d subnets) on away e k

first_active-ListedOutcome :
    (ns : Text) (subnets : List Subnet)
    → any_active (serves ns) subnets ≡ false
    → any_active marked_default subnets ≡ false
    → ListedOutcome ns subnets (first_active subnets)
unfolding first_active any_active
first_active-ListedOutcome ns [] n m = refl
first_active-ListedOutcome ns (s ∷ subnets) n m = elim (Bool-cases (is_active s)) [
  | inl on ↦ rw (on, first_active) (inl refl, on, inr (n, inr m))
  | inr off ↦
      rw (off, first_active)
        (by_rest off (first_active subnets)
          (first_active-ListedOutcome ns subnets (ground arith) (ground arith)))
]
  where
    by_rest :
        is_active s ≡ false
        → (r : Selection) → ListedOutcome ns subnets r
        → ListedOutcome ns (s ∷ subnets) r
    by_rest off (chosen x) (a, b, c) = (inr a, b, inr (n, inr m))
    by_rest off no_subnet h = ground arith
    by_rest off (not_found t) h = h
    by_rest off (not_active t) h = h
    by_rest off list_failed h = h

pub listed-ListedOutcome :
    (ns : Text) (subnets : List Subnet)
    → ListedOutcome ns subnets (from_pick subnets (pick_subnet ns none subnets))
unfolding PickOutcome
listed-ListedOutcome ns subnets =
    by_pick (pick_subnet ns none subnets) (pick_subnet-PickOutcome ns none subnets)
  where
    by_pick :
        (r : Option Subnet × Option Subnet)
        → PickOutcome ns none subnets r
        → ListedOutcome ns subnets (from_pick subnets r)
    by_pick (some s, e) (m, a, v) = (m, a, inl v)
    by_pick (none, some s) (n, inl e) = absurd cc
    by_pick (none, some s) (n, inr (m, a, v)) = (m, a, inr (n, inl v))
    by_pick (none, none) (n, m, e) = first_active-ListedOutcome ns subnets n m

-- What a pod gets: the named subnet if its annotation names one, which must exist and be active; else
-- a subnet of the list.
abbrev pub UnnamedOutcome : Text → Option (List Subnet) → Selection → Type 0
UnnamedOutcome ns none r = r ≡ list_failed
UnnamedOutcome ns (some subnets) r = ListedOutcome ns subnets r

abbrev pub NamedOutcome : Text → Option Subnet → Selection → Type 0
NamedOutcome name none r = r ≡ not_found name
NamedOutcome name (some s) r =
    ((is_active s ≡ true) × (r ≡ chosen s)) ⊎ ((is_active s ≡ false) × (r ≡ not_active name))

abbrev pub SelectionOutcome :
    Text → (Text → Option Subnet) → Option (List Subnet) → Option Text → Selection → Type 0
SelectionOutcome ns get listed none r = UnnamedOutcome ns listed r
SelectionOutcome ns get listed (some []) r = UnnamedOutcome ns listed r
SelectionOutcome ns get listed (some (c ∷ name)) r = NamedOutcome (c ∷ name) (get (c ∷ name)) r

unnamed-UnnamedOutcome :
    (ns : Text) (listed : Option (List Subnet)) → UnnamedOutcome ns listed (select_listed ns listed)
unnamed-UnnamedOutcome ns none = refl
unnamed-UnnamedOutcome ns (some subnets) = listed-ListedOutcome ns subnets

named-NamedOutcome : (name : Text) (s : Option Subnet) → NamedOutcome name s (select_named name s)
named-NamedOutcome name none = refl
named-NamedOutcome name (some s) = elim (Bool-cases (is_active s)) [
  | inl on ↦ rw on (inl (refl, refl))
  | inr off ↦ rw off (inr (refl, refl))
]

-- findSubnetForPod: a pod whose annotation names a subnet gets that one if it exists and is active, and
-- an error otherwise. Any other pod gets, from the list, an active subnet that serves its namespace; an
-- active default where none does; any active one where there is no active default; and none only where
-- no subnet is active.
pub find_subnet_for_pod-SelectionOutcome :
    (annotations : Dict Text) (ns : Text) (get : Text → Option Subnet)
    (listed : Option (List Subnet))
    → SelectionOutcome ns get listed
        (lookup (codes "zstack.io/subnet") annotations)
        (find_subnet_for_pod annotations ns get listed)
unfolding find_subnet_for_pod
find_subnet_for_pod-SelectionOutcome annotations ns get listed =
    by_annotation (lookup (codes "zstack.io/subnet") annotations)
  where
    by_annotation :
        (t : Option Text) → SelectionOutcome ns get listed t (select_annotated ns get listed t)
    by_annotation none = unnamed-UnnamedOutcome ns listed
    by_annotation (some []) = unnamed-UnnamedOutcome ns listed
    by_annotation (some (c ∷ name)) = named-NamedOutcome (c ∷ name) (get (c ∷ name))
