-- ===== src/Ovn/Service/Nodes.antt =====
-- pkg/ovn/service_controller.go: the backends and virtual addresses of nodes, and the tracked load
-- balancers.
use zstack_ovn_kubernetes.Base.{
  ℕ, ◌≡◌, refl, sym, ap, ◌∙◌, Bool, false, List, [], ◌∷◌, ◌++◌, append-nil, append_assoc, Text,
  Option, none, some, if◌then◌else◌, text_eq, text_eq_iff, text_eq_refl, Bool-cases, inl, inr, join,
}
use zstack_ovn_kubernetes.Base.Dict.{Dict, lookup, insert, lookup-insert}
use zstack_ovn_kubernetes.Ovndb.Vip.{build_vip, build_backends}
use zstack_ovn_kubernetes.Ovn.Service.{
  EndpointInfo, group_by_node, add_backend, node_of, or_nil, join_all, get_node_local_backends,
  track_load_balancer, get_tracked_load_balancers, service_key, dict_or_nil,
}

-- The virtual addresses of the endpoints on one node, in order.
abbrev on_node : Text → Option Text → Bool
on_node ip none = false
on_node ip (some q) = text_eq q ip

unfoldable pub node_vips : Dict Text → ℕ → Text → List EndpointInfo → List Text
unfolding build_vip
node_vips node_ips target ip [] = []
node_vips node_ips target ip (e ∷ endpoints) =
    let rest = node_vips node_ips target ip endpoints in
    if on_node ip (node_of node_ips e) then build_vip e.address target ∷ rest else rest

add_backend-lookup :
    (ip : Text) (q : Option Text) (backend : Text) (m : Dict (List Text))
    → or_nil (lookup ip (add_backend q backend m))
      ≡ or_nil (lookup ip m) ++ (if on_node ip q then backend ∷ [] else [])
add_backend-lookup ip none backend m = sym (append-nil (or_nil (lookup ip m)))
add_backend-lookup ip (some q) backend m = elim (Bool-cases (text_eq q ip)) [
  | inl same ↦
      let eq : q ≡ ip = (text_eq_iff q ip).0 same in
      rw (lookup-insert q ip (or_nil (lookup q m) ++ backend ∷ []) m, same, eq) refl
  | inr other ↦
      rw (lookup-insert q ip (or_nil (lookup q m) ++ backend ∷ []) m, other)
        (sym (append-nil (or_nil (lookup ip m))))
]

group_by_node-lookup :
    (node_ips : Dict Text) (target : ℕ) (ip : Text) (endpoints : List EndpointInfo)
    (m : Dict (List Text))
    → or_nil (lookup ip (group_by_node node_ips target endpoints m))
      ≡ or_nil (lookup ip m) ++ node_vips node_ips target ip endpoints
unfolding group_by_node node_vips
group_by_node-lookup node_ips target ip [] m = sym (append-nil (or_nil (lookup ip m)))
group_by_node-lookup node_ips target ip (e ∷ endpoints) m =
    group_by_node-lookup node_ips target ip endpoints
      (add_backend (node_of node_ips e) (build_vip e.address target) m)
    ∙ ap (λ v. v ++ node_vips node_ips target ip endpoints)
        (add_backend-lookup ip (node_of node_ips e) (build_vip e.address target) m)
    ∙ append_assoc (or_nil (lookup ip m)) _ (node_vips node_ips target ip endpoints)
    ∙ ap (λ v. or_nil (lookup ip m) ++ v) one_more
  where
    one_more :
        (if on_node ip (node_of node_ips e) then build_vip e.address target ∷ [] else [])
          ++ node_vips node_ips target ip endpoints
        ≡ (if on_node ip (node_of node_ips e)
            then build_vip e.address target ∷ node_vips node_ips target ip endpoints
            else node_vips node_ips target ip endpoints)
    one_more = elim (Bool-cases (on_node ip (node_of node_ips e))) [
      | inl yes_here ↦ rw yes_here refl
      | inr not_here ↦ rw not_here refl
    ]

abbrev pub text_or_nil : Option Text → Text
text_or_nil none = []
text_or_nil (some t) = t

join_all-lookup :
    (ip : Text) (m : Dict (List Text))
    → text_or_nil (lookup ip (join_all m)) ≡ build_backends (or_nil (lookup ip m))
unfolding join_all lookup build_backends
join_all-lookup ip [] = unfold join in refl
join_all-lookup ip ((j, backends) ∷ m) = elim (Bool-cases (text_eq j ip)) [
  | inl same ↦ rw same refl
  | inr other ↦ rw other (join_all-lookup ip m)
]

-- For every address, getNodeLocalBackends joins the virtual addresses of exactly the endpoints whose
-- node has that address, in order; endpoints without a node, or on an unknown one, are left out.
pub get_node_local_backends-node_vips :
    (node_ips : Dict Text) (target : ℕ) (endpoints : List EndpointInfo) (ip : Text)
    → text_or_nil (lookup ip (get_node_local_backends node_ips target endpoints))
      ≡ build_backends (node_vips node_ips target ip endpoints)
unfolding get_node_local_backends
get_node_local_backends-node_vips node_ips target endpoints ip =
    join_all-lookup ip (group_by_node node_ips target endpoints [])
    ∙ ap build_backends (group_by_node-lookup node_ips target ip endpoints [] ∙ none_before)
  where
    none_before :
        or_nil (lookup ip []) ++ node_vips node_ips target ip endpoints
        ≡ node_vips node_ips target ip endpoints
    none_before = unfold lookup in refl

-- What is tracked for a service after a call: the named protocol has the new UUID, every other protocol
-- and every service with another key is as it was.
track_load_balancer-lookup :
    (lbs : Dict (Dict Text)) (namespace name protocol uuid key other : Text)
    → (lookup other (
          dict_or_nil (
            get_tracked_load_balancers
              (track_load_balancer lbs namespace name protocol uuid)
              namespace
              name))
        ≡ (if text_eq protocol other
            then some uuid
            else lookup other (dict_or_nil (get_tracked_load_balancers lbs namespace name))))
      × (text_eq (service_key namespace name) key ≡ false
          → lookup key (track_load_balancer lbs namespace name protocol uuid) ≡ lookup key lbs)
unfolding track_load_balancer
track_load_balancer-lookup lbs namespace name protocol uuid key other =
    let k = service_key namespace name in
    let old = dict_or_nil (lookup k lbs) in
    (
      rw (lookup-insert k k (insert protocol uuid old) lbs, text_eq_refl k)
          (lookup-insert protocol other uuid old),
      (λ h. rw (lookup-insert k key (insert protocol uuid old) lbs, h) refl),
    )
