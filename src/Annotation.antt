-- ===== src/Annotation.antt =====
-- pkg/util/annotation.go: the network annotation of a pod.
pub mod Decode
pub mod Operations
pub mod Validate
pub mod Roundtrip
pub mod Clear
pub mod Examples
use zstack_ovn_kubernetes.Base.{
  ℕ, Bool, true, false, not, ◌&&◌, ◌||◌, List, [], ◌∷◌, ◌++◌, Text, codes, Option, none, some,
  if◌then◌else◌, text_eq, is_empty, to_lower, split, length, ◌==◌,
}
use zstack_ovn_kubernetes.Base.Dict.{Dict, lookup, insert, delete}
use zstack_ovn_kubernetes.Json.{
  Json, Elements, Members, null, bool, number, str, arr, obj, none_left, element, no_member, member,
  print,
}
use zstack_ovn_kubernetes.Json.Parse.{parse_json}

pub record PodRoute : Type 0 where
  pub dest : Text
  pub next_hop : Text

-- A slice that is none is nil; of no routes, nil and empty are written alike.
pub record PodAnnotation : Type 0 where
  pub ip_addresses : Option (List Text)
  pub mac_address : Text
  pub gateway_ips : Option (List Text)
  pub routes : List PodRoute
  pub logical_switch : Text
  pub logical_switch_port : Text
  pub subnet : Text

abbrev pub zero_annotation : PodAnnotation
zero_annotation = record {
  ip_addresses = none;
  mac_address = [];
  gateway_ips = none;
  routes = [];
  logical_switch = [];
  logical_switch_port = [];
  subnet = [];
}

-- What json.Marshal makes of the fields; omitempty leaves out an empty text and an empty list.
unfoldable pub text_elements : List Text → Elements
text_elements [] = none_left
text_elements (s ∷ ss) = element (str s) (text_elements ss)

abbrev pub texts_json : Option (List Text) → Json
texts_json none = null
texts_json (some ss) = arr (text_elements ss)

abbrev pub route_json : PodRoute → Json
route_json r =
    obj (member (codes "dest") (str r.dest) (member (codes "nextHop") (str r.next_hop) no_member))

unfoldable pub route_elements : List PodRoute → Elements
route_elements [] = none_left
route_elements (r ∷ rs) = element (route_json r) (route_elements rs)

abbrev pub routes_member : List PodRoute → Members → Members
routes_member [] rest = rest
routes_member (r ∷ rs) rest = member (codes "routes") (arr (route_elements (r ∷ rs))) rest

abbrev pub text_member : Text → Text → Members → Members
text_member key [] rest = rest
text_member key (c ∷ s) rest = member key (str (c ∷ s)) rest

abbrev pub annotation_json : PodAnnotation → Json
annotation_json a = obj (
    member (codes "ip_addresses") (texts_json a.ip_addresses) (
      member (codes "mac_address") (str a.mac_address) (
        member (codes "gateway_ips") (texts_json a.gateway_ips) (
          routes_member a.routes (
            text_member (codes "logical_switch") a.logical_switch (
              text_member (codes "logical_switch_port") a.logical_switch_port
                (text_member (codes "subnet") a.subnet no_member)))))))

unfoldable pub marshal : PodAnnotation → Text
unfolding print text_elements route_elements
marshal a = print (annotation_json a)
