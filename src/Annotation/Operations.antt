-- ===== src/Annotation/Operations.antt =====
-- pkg/util/annotation.go: the operations on the annotations of a pod.
use zstack_ovn_kubernetes.Base.{
  is_some, Bool, List, [], ◌∷◌, ◌++◌, Text, codes, Option, none, some, if◌then◌else◌, is_empty,
  split,
}
use zstack_ovn_kubernetes.Base.Dict.{Dict, lookup, insert, delete}
use zstack_ovn_kubernetes.Annotation.{PodAnnotation, marshal}
use zstack_ovn_kubernetes.Annotation.Decode.{unmarshal}

-- (nil, nil), an annotation, or an error.
pub data AnnotationAnswer : Type 0 where
  not_annotated : AnnotationAnswer
  annotated : PodAnnotation → AnnotationAnswer
  unreadable : AnnotationAnswer

abbrev pub parsed_answer : Option PodAnnotation → AnnotationAnswer
parsed_answer none = unreadable
parsed_answer (some a) = annotated a

abbrev pub text_answer : Option Text → AnnotationAnswer
text_answer none = not_annotated
text_answer (some s) = if is_empty s then not_annotated else parsed_answer (unmarshal s)

abbrev pub network_key : Text
network_key = codes "k8s.ovn.org/pod-networks"

abbrev pub ip_key : Text
ip_key = codes "zstack.io/pod-ip"

abbrev pub mac_key : Text
mac_key = codes "zstack.io/pod-mac"

abbrev pub subnet_key : Text
subnet_key = codes "zstack.io/subnet"

abbrev pub switch_key : Text
switch_key = codes "zstack.io/logical-switch"

abbrev pub port_key : Text
port_key = codes "zstack.io/logical-switch-port"

-- The functions take the annotations of a pod that is not nil; a nil map reads as an empty one.
unfoldable pub get_pod_annotation : Dict Text → AnnotationAnswer
unfolding unmarshal
get_pod_annotation m = text_answer (lookup network_key m)

abbrev pub first_or_empty : List Text → Text
first_or_empty [] = []
first_or_empty (s ∷ ss) = s

-- strings.Split(ip, "/")[0].
abbrev pub before_slash : Text → Text
before_slash s = first_or_empty (split s b'/')

abbrev pub insert_ip : Option (List Text) → Dict Text → Dict Text
insert_ip none m = m
insert_ip (some []) m = m
insert_ip (some (s ∷ ss)) m = insert ip_key (before_slash s) m

abbrev pub insert_if : Text → Text → Dict Text → Dict Text
insert_if key value m = if is_empty value then m else insert key value m

unfoldable pub set_pod_annotation : PodAnnotation → Dict Text → Dict Text
unfolding marshal
set_pod_annotation a m = insert_if port_key a.logical_switch_port (
    insert_if switch_key a.logical_switch (
      insert_if subnet_key a.subnet (
        insert_if mac_key a.mac_address
          (insert_ip a.ip_addresses (insert network_key (marshal a) m)))))

unfoldable pub clear_pod_annotation : Dict Text → Dict Text
clear_pod_annotation m =
    delete port_key (
      delete switch_key (delete subnet_key (delete mac_key (delete ip_key (delete network_key m)))))

unfoldable pub has_pod_annotation : Dict Text → Bool
has_pod_annotation m = is_some (lookup network_key m)

abbrev pub new_pod_annotation : Text → Text → Text → Text → Text → Text → PodAnnotation
new_pod_annotation ip_with_prefix mac gateway subnet logical_switch logical_switch_port = record {
  ip_addresses = some (ip_with_prefix ∷ []);
  mac_address = mac;
  gateway_ips = some (gateway ∷ []);
  routes = [];
  logical_switch = logical_switch;
  logical_switch_port = logical_switch_port;
  subnet = subnet;
}

abbrev pub first_of : Option (List Text) → Text
first_of none = []
first_of (some ss) = first_or_empty ss

unfoldable pub get_ip : PodAnnotation → Text
get_ip a = before_slash (first_of a.ip_addresses)

abbrev pub get_ip_with_prefix : PodAnnotation → Text
get_ip_with_prefix a = first_of a.ip_addresses

abbrev pub get_gateway : PodAnnotation → Text
get_gateway a = first_of a.gateway_ips

abbrev pub add_route : Text → Text → PodAnnotation → PodAnnotation
add_route dest next_hop a = record a {
  routes = a.routes ++ record { dest = dest; next_hop = next_hop } ∷ [];
}

abbrev pub of_answer : (PodAnnotation → Text) → AnnotationAnswer → Text
of_answer f (annotated a) = f a
of_answer f answer = []

abbrev pub unless_empty : Option Text → Text → Text
unless_empty none rest = rest
unless_empty (some s) rest = if is_empty s then rest else s

unfoldable pub get_pod_ip : Dict Text → Text
unfolding get_pod_annotation get_ip
get_pod_ip m = unless_empty (lookup ip_key m) (of_answer get_ip (get_pod_annotation m))

unfoldable pub get_pod_mac : Dict Text → Text
unfolding get_pod_annotation
get_pod_mac m =
    unless_empty (lookup mac_key m) (of_answer (λ a. a.mac_address) (get_pod_annotation m))

-- A subnet that is there and empty is returned.
abbrev pub or_answer : Option Text → Text → Text
or_answer none rest = rest
or_answer (some s) rest = s

unfoldable pub get_pod_subnet : Dict Text → Text
unfolding get_pod_annotation
get_pod_subnet m =
    or_answer (lookup subnet_key m) (of_answer (λ a. a.subnet) (get_pod_annotation m))
