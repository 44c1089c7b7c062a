-- ===== src/Ovn/Service/Names.antt =====
-- pkg/ovn/service_controller.go: the names of load balancers tell protocols and kinds apart.
use zstack_ovn_kubernetes.Base.{
  ◌≡◌, refl, sym, ap, ◌∙◌, inl, inr, true, false, ◌&&◌, List, [], ◌∷◌, ◌++◌, Text, codes, Option,
  none, some, if◌then◌else◌, text_eq, text_eq_refl, text_eq_iff, ltb, arith, Bool-cases,
  append_assoc,
}
use zstack_ovn_kubernetes.Ovn.Subnets.{has_text}
use zstack_ovn_kubernetes.Ovn.Service.{
  cluster_ip_kind, node_port_kind, build_load_balancer_name, ServiceType,
}
use zstack_ovn_kubernetes.Ovn.Service.Ports.{
  Service, ServicePort, current_protocols, port_protocol, serves_nodes, stale_name, strip_suffix,
}

-- What Kubernetes allows as a port's protocol, in lower case.
pub data Known : Text → Type 0 where
  tcp : Known (codes "tcp")
  udp : Known (codes "udp")
  sctp : Known (codes "sctp")

abbrev pub KnownPort : ServicePort → Type 0
KnownPort p = Known (port_protocol p)

text_eq-append : (p a b : Text) → text_eq (p ++ a) (p ++ b) ≡ text_eq a b
unfolding text_eq
text_eq-append [] a b = refl
text_eq-append (c ∷ p) a b = ground (arith, text_eq-append p a b)

abbrev prefix : Text → Text → Text
prefix namespace name = codes "Service_" ++ (namespace ++ (b'/' ∷ (name ++ codes "_")))

module _ (namespace name : Text) where
  -- The name is the prefix of the service before the key under which its UUID is tracked.
  cluster_name :
      (protocol : Text)
      → build_load_balancer_name namespace name protocol cluster_ip_kind
        ≡ prefix namespace name ++ protocol
  unfolding build_load_balancer_name
  cluster_name protocol = simp append_assoc

  node_port_name :
      (protocol : Text)
      → build_load_balancer_name namespace name protocol node_port_kind
        ≡ prefix namespace name ++ (protocol ++ codes "_nodeport")
  unfolding build_load_balancer_name
  node_port_name protocol = simp append_assoc

strip_suffix-some : (suffix s t : Text) → strip_suffix suffix s ≡ some t → s ≡ t ++ suffix
unfolding strip_suffix
strip_suffix-some [] [] t e = let nothing : t ≡ [] = cc in rw nothing refl
strip_suffix-some (x ∷ suffix) [] t e = absurd cc
strip_suffix-some suffix (c ∷ s) t e = elim (Bool-cases (text_eq (c ∷ s) suffix)) [
  | inl same ↦
      let nothing : t ≡ [] = rest_empty (rw same at e) in
      rw nothing ((text_eq_iff (c ∷ s) suffix).0 same)
  | inr more ↦ by_rest (strip_suffix-some suffix s) (strip_suffix suffix s) refl (rw more at e)
]
  where
    rest_empty : some [] ≡ some t → t ≡ []
    rest_empty h = cc

    by_rest :
        ((r : Text) → strip_suffix suffix s ≡ some r → s ≡ r ++ suffix)
        → (o : Option Text) → strip_suffix suffix s ≡ o
        → elim o [ none ↦ none | some r ↦ some (c ∷ r) ] ≡ some t
        → c ∷ s ≡ t ++ suffix
    by_rest again none q h = absurd cc
    by_rest again (some r) q h =
        let shape : t ≡ c ∷ r = cc in rw shape (ap (λ (v : Text). c ∷ v) (again r q))

module _ (svc : Service) where
  abbrev pub cluster_lb : Text → Text
  cluster_lb protocol = build_load_balancer_name svc.namespace svc.name protocol cluster_ip_kind

  abbrev pub node_port_lb : Text → Text
  node_port_lb protocol = build_load_balancer_name svc.namespace svc.name protocol node_port_kind

  stale_name_key : (key : Text) → stale_name svc key ≡ prefix svc.namespace svc.name ++ key
  stale_name_key key = by_suffix (strip_suffix (codes "_nodeport") key) refl
    where
      by_suffix :
          (o : Option Text)
          → strip_suffix (codes "_nodeport") key ≡ o
          → elim o [
            | none ↦ build_load_balancer_name svc.namespace svc.name key cluster_ip_kind
            | some protocol ↦
                build_load_balancer_name svc.namespace svc.name protocol node_port_kind
          ]
            ≡ prefix svc.namespace svc.name ++ key
      by_suffix none e = cluster_name svc.namespace svc.name key
      by_suffix (some r) e =
          node_port_name svc.namespace svc.name r
          ∙ ap (λ (v : Text). prefix svc.namespace svc.name ++ v)
              (sym (strip_suffix-some (codes "_nodeport") key r e))

  pub cluster_lb_eq : (p q : Text) → text_eq (cluster_lb p) (cluster_lb q) ≡ text_eq p q
  cluster_lb_eq p q =
      (λ i.
        text_eq (cluster_name svc.namespace svc.name p i) (cluster_name svc.namespace svc.name q i))
      ∙ text_eq-append (prefix svc.namespace svc.name) p q

  not_node_port : (p q : Text) → Known p → Known q → text_eq (p ++ codes "_nodeport") q ≡ false
  unfolding text_eq
  not_node_port _ _ tcp tcp = refl
  not_node_port _ _ tcp udp = refl
  not_node_port _ _ tcp sctp = refl
  not_node_port _ _ udp tcp = refl
  not_node_port _ _ udp udp = refl
  not_node_port _ _ udp sctp = refl
  not_node_port _ _ sctp tcp = refl
  not_node_port _ _ sctp udp = refl
  not_node_port _ _ sctp sctp = refl

  pub node_port_lb_other :
      (p q : Text) → Known p → Known q → text_eq (node_port_lb p) (cluster_lb q) ≡ false
  node_port_lb_other p q kp kq =
      (λ i.
        text_eq (node_port_name svc.namespace svc.name p i)
          (cluster_name svc.namespace svc.name q i))
      ∙ (text_eq-append (prefix svc.namespace svc.name) (p ++ codes "_nodeport") q
          ∙ not_node_port p q kp kq)

  pub stale_name_other :
      (current : List Text) (key protocol : Text)
      → has_text current key ≡ false
      → has_text current protocol ≡ true
      → text_eq (stale_name svc key) (cluster_lb protocol) ≡ false
  stale_name_other current key protocol out here =
      (λ i. text_eq (stale_name_key key i) (cluster_name svc.namespace svc.name protocol i))
      ∙ (text_eq-append (prefix svc.namespace svc.name) key protocol ∙ apart)
    where
      differ : has_text current key ≡ has_text current protocol → ⊥
      differ e = cc

      apart : text_eq key protocol ≡ false
      apart = elim (Bool-cases (text_eq key protocol)) [
        | inl e ↦
            let same : key ≡ protocol = (text_eq_iff key protocol).0 e in
            absurd (differ (ap (has_text current) same))
        | inr e ↦ e
      ]

has_text-append :
    (xs ys : List Text) (k : Text) → has_text ys k ≡ true → has_text (xs ++ ys) k ≡ true
unfolding has_text
has_text-append [] ys k h = h
has_text-append (x ∷ xs) ys k h = ground (arith, has_text-append xs ys k)

pub has_text-current_protocols :
    (type : ServiceType) (front : List ServicePort) (p : ServicePort) (back : List ServicePort)
    → has_text (current_protocols type (front ++ p ∷ back)) (port_protocol p) ≡ true
unfolding current_protocols has_text
has_text-current_protocols type [] p back = ground (arith, text_eq_refl (port_protocol p))
has_text-current_protocols type (q ∷ front) p back =
    let later =
      has_text-append
        (if serves_nodes type && ltb 0 q.node_port
          then (port_protocol q ++ codes "_nodeport") ∷ []
          else [])
        (current_protocols type (front ++ p ∷ back)) (port_protocol p)
        (has_text-current_protocols type front p back) in
    has_text-append (port_protocol q ∷ []) _ (port_protocol p) later
