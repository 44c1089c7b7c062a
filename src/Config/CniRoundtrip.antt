-- ===== src/Config/CniRoundtrip.antt =====
-- pkg/config/cni.go: ParseCNIArgs reads back what a container runtime writes.
use zstack_ovn_kubernetes.Base.{
  ◌≡◌, ◌≢◌, refl, ap, ◌∙◌, false, List, [], ◌∷◌, ◌++◌, Text, codes, is_empty, text_eq, trim_space,
  split, join, contains_byte, arith, drop,
}
use zstack_ovn_kubernetes.Base.Splitting.{split-join_parts}
use zstack_ovn_kubernetes.Config.Cni.{CniArgs, parsed, assign_all, no_args, require, parse_cni_args}

-- CNI_ARGS as a container runtime writes it.
abbrev pub pair : Text → Text → Text
pair key value = key ++ b'=' ∷ value

abbrev pub cni_args_pairs : CniArgs → List Text
cni_args_pairs a =
    pair (codes "K8S_POD_NAMESPACE") a.pod_namespace
    ∷ pair (codes "K8S_POD_NAME") a.pod_name
    ∷ pair (codes "K8S_POD_UID") a.pod_uid
    ∷ pair (codes "K8S_POD_INFRA_CONTAINER_ID") a.container_id
    ∷ pair (codes "K8S_POD_SANDBOX_ID") a.sandbox_id
    ∷ []

unfoldable pub cni_args_text : CniArgs → Text
cni_args_text a = join (cni_args_pairs a) (codes ";")

-- A value that the separator and the trimming leave whole.
abbrev pub Whole : Text → Type 0
Whole s = (contains_byte b';' s ≡ false) × (trim_space s ≡ s)

is_empty-false : (s : Text) → s ≢ [] → is_empty s ≡ false
is_empty-false [] h = absurd (h refl)
is_empty-false (c ∷ s) h = refl

require_lem : (a : CniArgs) → a.pod_namespace ≢ [] → a.pod_name ≢ [] → require a ≡ parsed a
require_lem a ns name =
    let e = is_empty-false a.pod_namespace ns in
    let f = is_empty-false a.pod_name name in ground arith

assigned :
    (ns name uid container sandbox : Text)
    → assign_all
        (pair (codes "K8S_POD_NAMESPACE") ns
          ∷ pair (codes "K8S_POD_NAME") name
          ∷ pair (codes "K8S_POD_UID") uid
          ∷ pair (codes "K8S_POD_INFRA_CONTAINER_ID") container
          ∷ pair (codes "K8S_POD_SANDBOX_ID") sandbox
          ∷ [])
        no_args
      ≡ record {
        pod_namespace = trim_space ns;
        pod_name = trim_space name;
        pod_uid = trim_space uid;
        container_id = trim_space container;
        sandbox_id = trim_space sandbox;
      }
unfolding assign_all trim_space text_eq
assigned ns name uid container sandbox = refl

trimmed :
    (a : CniArgs)
    → Whole a.pod_namespace
    → Whole a.pod_name
    → Whole a.pod_uid
    → Whole a.container_id
    → Whole a.sandbox_id
    → assign_all (cni_args_pairs a) no_args ≡ a
trimmed a ns name uid container sandbox =
    assigned a.pod_namespace a.pod_name a.pod_uid a.container_id a.sandbox_id ∙ λ i. record {
      pod_namespace = ns.1 i;
      pod_name = name.1 i;
      pod_uid = uid.1 i;
      container_id = container.1 i;
      sandbox_id = sandbox.1 i;
    }

divided :
    (a : CniArgs)
    → Whole a.pod_namespace
    → Whole a.pod_name
    → Whole a.pod_uid
    → Whole a.container_id
    → Whole a.sandbox_id
    → split (cni_args_text a) b';' ≡ cni_args_pairs a
unfolding contains_byte cni_args_text
divided a ns name uid container sandbox =
    split-join_parts b';' (pair (codes "K8S_POD_NAMESPACE") a.pod_namespace)
      (drop 1 (cni_args_pairs a)) (ns.0, (name.0, (uid.0, (container.0, (sandbox.0, tt)))))

-- ParseCNIArgs reads back what a runtime wrote: five values without semicolons and without blanks
-- around them, the namespace and the name of the pod not empty.
pub parse_cni_args-cni_args_text :
    (a : CniArgs)
    → a.pod_namespace ≢ []
    → a.pod_name ≢ []
    → Whole a.pod_namespace
    → Whole a.pod_name
    → Whole a.pod_uid
    → Whole a.container_id
    → Whole a.sandbox_id
    → parse_cni_args (cni_args_text a) ≡ parsed a
unfolding parse_cni_args cni_args_text join
parse_cni_args-cni_args_text a ns name wns wname wuid wc ws =
    ap (λ (ps : List Text). require (assign_all ps no_args)) (divided a wns wname wuid wc ws)
    ∙ (ap require (trimmed a wns wname wuid wc ws) ∙ require_lem a ns name)
