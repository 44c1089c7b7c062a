-- ===== src/Annotation/Clear.antt =====
-- pkg/util/annotation.go: clearing the annotation of a pod.
use zstack_ovn_kubernetes.Base.{
  is_some, ◌≡◌, refl, ap, ◌∙◌, Bool, true, false, ◌||◌, List, [], ◌∷◌, Text, Option, none, some,
  if◌then◌else◌, text_eq, arith,
}
use zstack_ovn_kubernetes.Base.Dict.{Dict, lookup, insert, delete, lookup-insert, lookup-delete}
use zstack_ovn_kubernetes.Annotation.{PodAnnotation, marshal}
use zstack_ovn_kubernetes.Annotation.Operations.{
  not_annotated, get_pod_annotation, set_pod_annotation, clear_pod_annotation, has_pod_annotation,
  text_answer, network_key, ip_key, mac_key, subnet_key, switch_key, port_key, insert_ip, insert_if,
  before_slash,
}

abbrev pub annotation_keys : List Text
annotation_keys = network_key ∷ ip_key ∷ mac_key ∷ subnet_key ∷ switch_key ∷ port_key ∷ []

unfoldable pub is_one_of : List Text → Text → Bool
is_one_of [] k = false
is_one_of (j ∷ js) k = text_eq j k || is_one_of js k

-- Each insertion of SetPodAnnotation is under one of the keys.
lookup-insert_if :
    (k key value : Text) (m : Dict Text)
    → text_eq key k ≡ false
    → lookup k (insert_if key value m) ≡ lookup k m
lookup-insert_if k key value m e = ground (arith, lookup-insert key k value m)

lookup-insert_ip :
    (k : Text) (l : Option (List Text)) (m : Dict Text)
    → text_eq ip_key k ≡ false
    → lookup k (insert_ip l m) ≡ lookup k m
lookup-insert_ip k none m e = refl
lookup-insert_ip k (some []) m e = refl
lookup-insert_ip k (some (s ∷ ss)) m e = ground (arith, lookup-insert ip_key k (before_slash s) m)

lookup-set_pod_annotation-other :
    (k : Text) (a : PodAnnotation) (m : Dict Text)
    → is_one_of annotation_keys k ≡ false
    → lookup k (set_pod_annotation a m) ≡ lookup k m
unfolding set_pod_annotation is_one_of
lookup-set_pod_annotation-other k a m e = ground (
  arith,
  lookup-insert_if k port_key a.logical_switch_port (
      insert_if switch_key a.logical_switch (
        insert_if subnet_key a.subnet (
          insert_if mac_key a.mac_address
            (insert_ip a.ip_addresses (insert network_key (marshal a) m))))),
  lookup-insert_if k switch_key a.logical_switch (
      insert_if subnet_key a.subnet (
        insert_if mac_key a.mac_address
          (insert_ip a.ip_addresses (insert network_key (marshal a) m)))),
  lookup-insert_if k subnet_key a.subnet (
      insert_if mac_key a.mac_address
        (insert_ip a.ip_addresses (insert network_key (marshal a) m))),
  lookup-insert_if k mac_key a.mac_address
      (insert_ip a.ip_addresses (insert network_key (marshal a) m)),
  lookup-insert_ip k a.ip_addresses (insert network_key (marshal a) m),
  lookup-insert network_key k (marshal a) m,
)

abbrev delete_all : List Text → Dict Text → Dict Text
delete_all [] m = m
delete_all (j ∷ js) m = delete_all js (delete j m)

lookup-delete_all :
    (js : List Text) (k : Text) (m : Dict Text)
    → lookup k (delete_all js m) ≡ (if is_one_of js k then none else lookup k m)
unfolding is_one_of
lookup-delete_all [] k m = refl
lookup-delete_all (j ∷ js) k m =
    ground (arith, lookup-delete_all js k (delete j m), lookup-delete j k m)

lookup-clear_pod_annotation :
    (k : Text) (m : Dict Text)
    → lookup k (clear_pod_annotation m) ≡ (if is_one_of annotation_keys k then none else lookup k m)
unfolding clear_pod_annotation
lookup-clear_pod_annotation k m = lookup-delete_all annotation_keys k m

same_unless :
    (b : Bool) (x y : Option Text)
    → (b ≡ false → x ≡ y)
    → (if b then none else x) ≡ (if b then none else y)
same_unless true x y h = refl
same_unless false x y h = h refl

lookup-clear-set :
    (k : Text) (a : PodAnnotation) (m : Dict Text)
    → lookup k (clear_pod_annotation (set_pod_annotation a m))
      ≡ (if is_one_of annotation_keys k then none else lookup k m)
lookup-clear-set k a m =
    lookup-clear_pod_annotation k (set_pod_annotation a m)
    ∙ same_unless (is_one_of annotation_keys k) _ _ (lookup-set_pod_annotation-other k a m)

-- Clearing the annotations of a pod removes the six keys of this program, whatever was set: every other
-- annotation reads as it did before the network annotation was set, and the pod then reads as one
-- without a network annotation.
pub clear_pod_annotation-set_pod_annotation :
    (a : PodAnnotation) (m : Dict Text)
    → ((k : Text)
        → lookup k (clear_pod_annotation (set_pod_annotation a m))
          ≡ (if is_one_of annotation_keys k then none else lookup k m))
      × has_pod_annotation (clear_pod_annotation (set_pod_annotation a m)) ≡ false
      × get_pod_annotation (clear_pod_annotation (set_pod_annotation a m)) ≡ not_annotated
unfolding has_pod_annotation get_pod_annotation is_one_of text_eq
clear_pod_annotation-set_pod_annotation a m =
    let after = set_pod_annotation a m in
    let gone = lookup-clear_pod_annotation network_key after in
    (λ k. lookup-clear-set k a m, ap is_some gone, ap text_answer gone)
