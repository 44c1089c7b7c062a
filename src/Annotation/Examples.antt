-- ===== src/Annotation/Examples.antt =====
-- pkg/util/annotation.go: annotations of a pod in the default subnet.
use zstack_ovn_kubernetes.Base.{
  ◌≡◌, refl, [], ◌∷◌, Text, codes, none, some, false, text_eq, to_lower, split, if◌then◌else◌,
}
use zstack_ovn_kubernetes.Base.Dict.{Dict, lookup, insert}
use zstack_ovn_kubernetes.Annotation.{PodAnnotation, marshal}
use zstack_ovn_kubernetes.Annotation.Decode.{unmarshal}
use zstack_ovn_kubernetes.Annotation.Validate.{validate, invalid_mac_address}
use zstack_ovn_kubernetes.Annotation.Operations.{
  set_pod_annotation, get_pod_annotation, clear_pod_annotation, has_pod_annotation, annotated,
  not_annotated, unreadable, get_pod_ip, new_pod_annotation, add_route, network_key,
}
use zstack_ovn_kubernetes.Net.Parse.{parse_ipv4_fields}
use zstack_ovn_kubernetes.Annotation.Roundtrip.{
  AsciiAnnotation, is_ascii-Ascii, get_pod_annotation-set_pod_annotation,
}
use zstack_ovn_kubernetes.Annotation.Clear.{
  annotation_keys, is_one_of, clear_pod_annotation-set_pod_annotation,
}

abbrev nginx : PodAnnotation
nginx = add_route (codes "192.168.0.0/16") (codes "10.244.1.1") (
    new_pod_annotation (codes "10.244.1.5/24") (codes "0a:58:0a:f4:01:05") (codes "10.244.1.1")
      (codes "default") (codes "subnet-default") [])

abbrev labelled : Dict Text
labelled = (codes "app", codes "web") ∷ []

nginx_text :
    marshal nginx
    ≡ codes
        "{\"ip_addresses\":[\"10.244.1.5/24\"],\"mac_address\":\"0a:58:0a:f4:01:05\",\"gateway_ips\":[\"10.244.1.1\"],\"routes\":[{\"dest\":\"192.168.0.0/16\",\"nextHop\":\"10.244.1.1\"}],\"logical_switch\":\"subnet-default\",\"subnet\":\"default\"}"
unfolding marshal
nginx_text = refl

nginx_ip : get_pod_ip (set_pod_annotation nginx labelled) ≡ codes "10.244.1.5"
unfolding get_pod_ip set_pod_annotation lookup insert text_eq split
nginx_ip = refl

-- The keys of the text name the fields in any case, null is an empty field, and unknown keys are skipped.
written_by_hand :
    unmarshal (codes "{ \"MAC_address\" : \"0a:58\", \"x\": [1, {}], \"ip_addresses\": null }")
    ≡ some (record {
      ip_addresses = none;
      mac_address = codes "0a:58";
      gateway_ips = none;
      routes = [];
      logical_switch = [];
      logical_switch_port = [];
      subnet = [];
    })
unfolding unmarshal text_eq to_lower
written_by_hand = refl

not_json : get_pod_annotation ((network_key, codes "{\"mac_address\":5}") ∷ []) ≡ unreadable
unfolding get_pod_annotation lookup text_eq to_lower
not_json = refl

nginx-AsciiAnnotation : AsciiAnnotation nginx
nginx-AsciiAnnotation = record {
  ascii_ips = (is_ascii-Ascii (codes "10.244.1.5/24") refl, tt);
  ascii_mac = is_ascii-Ascii (codes "0a:58:0a:f4:01:05") refl;
  ascii_gateways = (is_ascii-Ascii (codes "10.244.1.1") refl, tt);
  ascii_routes = (
    (is_ascii-Ascii (codes "192.168.0.0/16") refl, is_ascii-Ascii (codes "10.244.1.1") refl),
    tt,
  );
  ascii_switch = is_ascii-Ascii (codes "subnet-default") refl;
  ascii_port = tt;
  ascii_subnet = is_ascii-Ascii (codes "default") refl;
}

nginx_set : get_pod_annotation (set_pod_annotation nginx labelled) ≡ annotated nginx
nginx_set = get_pod_annotation-set_pod_annotation nginx labelled nginx-AsciiAnnotation

nginx_cleared :
    ((k : Text)
      → lookup k (clear_pod_annotation (set_pod_annotation nginx labelled))
        ≡ (if is_one_of annotation_keys k then none else lookup k labelled))
    × has_pod_annotation (clear_pod_annotation (set_pod_annotation nginx labelled)) ≡ false
    × get_pod_annotation (clear_pod_annotation (set_pod_annotation nginx labelled)) ≡ not_annotated
nginx_cleared = clear_pod_annotation-set_pod_annotation nginx labelled

nginx_valid : validate nginx ≡ none
unfolding validate parse_ipv4_fields
nginx_valid = refl

mac_mixed :
    validate (record nginx { mac_address = codes "0a:58:0a:f4-01:05" })
    ≡ some (invalid_mac_address (codes "0a:58:0a:f4-01:05"))
unfolding validate parse_ipv4_fields
mac_mixed = refl
