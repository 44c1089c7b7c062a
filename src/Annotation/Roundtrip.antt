-- ===== src/Annotation/Roundtrip.antt =====
-- pkg/util/annotation.go: reading the annotation that was set.
use zstack_ovn_kubernetes.Base.{
  ◌≡◌, refl, ap, ◌∙◌, Bool, true, false, ◌&&◌, List, [], ◌∷◌, Text, codes, Option, none, some,
  text_eq, to_lower, arith, All, ltb,
}
use zstack_ovn_kubernetes.Base.Dict.{Dict, lookup, lookup-insert}
use zstack_ovn_kubernetes.Json.{Members, str, no_member, member, print}
use zstack_ovn_kubernetes.Json.Strings.{Ascii}
use zstack_ovn_kubernetes.Json.Roundtrip.{Plain, PlainElements, PlainMembers, parse_json-print}
use zstack_ovn_kubernetes.Annotation.{
  PodRoute, PodAnnotation, zero_annotation, text_elements, texts_json, route_elements,
  routes_member, text_member, annotation_json, marshal,
}
use zstack_ovn_kubernetes.Annotation.Decode.{
  decode_text_list, decode_texts, decode_route_list, decode_members, decode_route_members,
  decode_annotation, unmarshal, and_then, cons_decoded, some_list,
}
use zstack_ovn_kubernetes.Annotation.Operations.{
  annotated, get_pod_annotation, set_pod_annotation, parsed_answer, text_answer, network_key,
  ip_key, mac_key, subnet_key, switch_key, port_key, insert_ip, insert_if, before_slash,
}

module _ (ips gateways : Option (List Text)) (mac : Text) where
  -- The annotation as far as it is read.
  abbrev so_far : List PodRoute → Text → Text → Text → PodAnnotation
  so_far rs switch port subnet = record {
    ip_addresses = ips;
    mac_address = mac;
    gateway_ips = gateways;
    routes = rs;
    logical_switch = switch;
    logical_switch_port = port;
    subnet = subnet;
  }

  subnet_back :
      (rs : List PodRoute) (switch port subnet : Text)
      → decode_members (text_member (codes "subnet") subnet no_member) (so_far rs switch port [])
        ≡ some (so_far rs switch port subnet)
  unfolding decode_members to_lower text_eq
  subnet_back rs switch port [] = refl
  subnet_back rs switch port (c ∷ s) = refl

  port_back :
      (rs : List PodRoute) (switch port subnet : Text)
      → decode_members
          (text_member
            (codes "logical_switch_port")
            port
            (text_member (codes "subnet") subnet no_member))
          (so_far rs switch [] [])
        ≡ some (so_far rs switch port subnet)
  unfolding decode_members to_lower text_eq
  port_back rs switch [] subnet = subnet_back rs switch [] subnet
  port_back rs switch (c ∷ s) subnet = subnet_back rs switch (c ∷ s) subnet

  switch_back :
      (rs : List PodRoute) (switch port subnet : Text)
      → decode_members
          (text_member (codes "logical_switch") switch (
            text_member
              (codes "logical_switch_port")
              port
              (text_member (codes "subnet") subnet no_member)))
          (so_far rs [] [] [])
        ≡ some (so_far rs switch port subnet)
  unfolding decode_members to_lower text_eq
  switch_back rs [] port subnet = port_back rs [] port subnet
  switch_back rs (c ∷ s) port subnet = port_back rs (c ∷ s) port subnet

text_list_back : (ss : List Text) → decode_text_list (text_elements ss) ≡ some ss
unfolding decode_text_list text_elements
text_list_back [] = refl
text_list_back (s ∷ ss) = ap (cons_decoded (some s)) (text_list_back ss)

texts_back : (l : Option (List Text)) → decode_texts (texts_json l) ≡ some l
texts_back none = refl
texts_back (some ss) = ap some_list (text_list_back ss)

route_list_back : (rs : List PodRoute) → decode_route_list (route_elements rs) ≡ some rs
unfolding decode_route_list decode_route_members route_elements to_lower text_eq
route_list_back [] = refl
route_list_back (r ∷ rs) = ap (cons_decoded (some r)) (route_list_back rs)

-- The members after the first three.
abbrev tail : List PodRoute → Text → Text → Text → Members
tail rs switch port subnet = routes_member rs (
    text_member (codes "logical_switch") switch (
      text_member (codes "logical_switch_port") port
        (text_member (codes "subnet") subnet no_member)))

-- What the rest of the members makes of a decoded value that a field is set to.
abbrev then_members : {A : Type 0} → (A → PodAnnotation) → Members → Option A → Option PodAnnotation
then_members f ms v = and_then (and_then v (λ x. some (f x))) (λ b. decode_members ms b)

routes_back :
    (ips gateways : Option (List Text)) (mac : Text) (rs : List PodRoute)
    (switch port subnet : Text)
    → decode_members (tail rs switch port subnet) (so_far ips gateways mac [] [] [] [])
      ≡ some (so_far ips gateways mac rs switch port subnet)
unfolding decode_members to_lower text_eq
routes_back ips gateways mac [] switch port subnet =
    switch_back ips gateways mac [] switch port subnet
routes_back ips gateways mac (r ∷ rs) switch port subnet =
    ap (then_members (λ l. so_far ips gateways mac l [] [] []) (tail [] switch port subnet))
      (route_list_back (r ∷ rs))
    ∙ switch_back ips gateways mac (r ∷ rs) switch port subnet

three_back :
    (ips gateways : Option (List Text)) (mac : Text) (ms : Members)
    → decode_members
        (member (codes "ip_addresses") (texts_json ips) (
          member
            (codes "mac_address")
            (str mac)
            (member (codes "gateway_ips") (texts_json gateways) ms)))
        zero_annotation
      ≡ decode_members ms (so_far ips gateways mac [] [] [] [])
unfolding decode_members to_lower text_eq
three_back ips gateways mac ms =
    ap
      (then_members (λ l. so_far l none [] [] [] [] [])
        (member (codes "mac_address") (str mac)
          (member (codes "gateway_ips") (texts_json gateways) ms)))
      (texts_back ips)
    ∙ ap (then_members (λ l. so_far ips l mac [] [] [] []) ms) (texts_back gateways)

decode_annotation-json : (a : PodAnnotation) → decode_annotation (annotation_json a) ≡ some a
decode_annotation-json a =
    three_back a.ip_addresses a.gateway_ips a.mac_address
      (tail a.routes a.logical_switch a.logical_switch_port a.subnet)
    ∙ routes_back a.ip_addresses a.gateway_ips a.mac_address a.routes a.logical_switch
        a.logical_switch_port a.subnet

-- Every text of the annotation is ASCII.
abbrev AsciiTexts : Option (List Text) → Type 0
AsciiTexts none = Unit {0}
AsciiTexts (some ss) = All Ascii ss

abbrev AsciiRoute : PodRoute → Type 0
AsciiRoute r = Ascii r.dest × Ascii r.next_hop

pub record AsciiAnnotation (a : PodAnnotation) : Type 0 where
  pub ascii_ips : AsciiTexts a.ip_addresses
  pub ascii_mac : Ascii a.mac_address
  pub ascii_gateways : AsciiTexts a.gateway_ips
  pub ascii_routes : All AsciiRoute a.routes
  pub ascii_switch : Ascii a.logical_switch
  pub ascii_port : Ascii a.logical_switch_port
  pub ascii_subnet : Ascii a.subnet

abbrev pub is_ascii : Text → Bool
is_ascii [] = true
is_ascii (c ∷ s) = ltb c 128 && is_ascii s

pub is_ascii-Ascii : (s : Text) → is_ascii s ≡ true → Ascii s
is_ascii-Ascii [] e = tt
is_ascii-Ascii (c ∷ s) e = (ground arith, is_ascii-Ascii s (ground arith))

text_elements-Plain : (ss : List Text) → All Ascii ss → PlainElements (text_elements ss)
unfolding Plain text_elements
text_elements-Plain [] h = tt
text_elements-Plain (s ∷ ss) h = (h.0, text_elements-Plain ss h.1)

texts_json-Plain : (l : Option (List Text)) → AsciiTexts l → Plain (texts_json l)
unfolding Plain
texts_json-Plain none h = tt
texts_json-Plain (some ss) h = text_elements-Plain ss h

route_elements-Plain : (rs : List PodRoute) → All AsciiRoute rs → PlainElements (route_elements rs)
unfolding Plain route_elements
route_elements-Plain [] h = tt
route_elements-Plain (r ∷ rs) h = (
  (is_ascii-Ascii (codes "dest") refl, h.0.0, (is_ascii-Ascii (codes "nextHop") refl, h.0.1, tt)),
  route_elements-Plain rs h.1,
)

text_member-Plain :
    (key s : Text) (ms : Members)
    → is_ascii key ≡ true
    → Ascii s
    → PlainMembers ms
    → PlainMembers (text_member key s ms)
unfolding Plain
text_member-Plain key [] ms e a p = p
text_member-Plain key (c ∷ s) ms e a p = (is_ascii-Ascii key e, a, p)

routes_member-Plain :
    (rs : List PodRoute) (ms : Members)
    → All AsciiRoute rs
    → PlainMembers ms
    → PlainMembers (routes_member rs ms)
unfolding Plain
routes_member-Plain [] ms h p = p
routes_member-Plain (r ∷ rs) ms h p =
    (is_ascii-Ascii (codes "routes") refl, route_elements-Plain (r ∷ rs) h, p)

annotation_json-Plain : (a : PodAnnotation) → AsciiAnnotation a → Plain (annotation_json a)
unfolding Plain
annotation_json-Plain a h = (
  is_ascii-Ascii (codes "ip_addresses") refl,
  texts_json-Plain a.ip_addresses h.ascii_ips,
  (
    is_ascii-Ascii (codes "mac_address") refl,
    h.ascii_mac,
    (
      is_ascii-Ascii (codes "gateway_ips") refl,
      texts_json-Plain a.gateway_ips h.ascii_gateways,
      routes_member-Plain a.routes _ h.ascii_routes (
          text_member-Plain (codes "logical_switch") a.logical_switch _ refl h.ascii_switch (
            text_member-Plain (codes "logical_switch_port") a.logical_switch_port _ refl
              h.ascii_port (text_member-Plain (codes "subnet") a.subnet _ refl h.ascii_subnet tt))),
    ),
  ),
)

unmarshal-marshal : (a : PodAnnotation) → AsciiAnnotation a → unmarshal (marshal a) ≡ some a
unfolding unmarshal marshal
unmarshal-marshal a h =
    ap (λ j. and_then j decode_annotation)
      (parse_json-print (annotation_json a) (annotation_json-Plain a h))
    ∙ decode_annotation-json a

-- The keys other than the network key leave its value alone.
lookup-insert_if :
    (key value : Text) (m : Dict Text)
    → text_eq key network_key ≡ false
    → lookup network_key (insert_if key value m) ≡ lookup network_key m
lookup-insert_if key value m e = ground (arith, lookup-insert key network_key value m)

lookup-insert_ip :
    (l : Option (List Text)) (m : Dict Text)
    → lookup network_key (insert_ip l m) ≡ lookup network_key m
unfolding text_eq
lookup-insert_ip none m = refl
lookup-insert_ip (some []) m = refl
lookup-insert_ip (some (s ∷ ss)) m = lookup-insert ip_key network_key (before_slash s) m

lookup-set_pod_annotation :
    (a : PodAnnotation) (m : Dict Text)
    → lookup network_key (set_pod_annotation a m) ≡ some (marshal a)
unfolding set_pod_annotation text_eq
lookup-set_pod_annotation a m =
    lookup-insert_if port_key a.logical_switch_port _ refl
    ∙ lookup-insert_if switch_key a.logical_switch _ refl
    ∙ lookup-insert_if subnet_key a.subnet _ refl
    ∙ lookup-insert_if mac_key a.mac_address _ refl
    ∙ lookup-insert_ip a.ip_addresses _
    ∙ lookup-insert network_key network_key (marshal a) m

-- For an annotation whose texts are ASCII, and whatever annotations the pod has: once
-- set_pod_annotation has written it, get_pod_annotation reads that annotation back.
pub get_pod_annotation-set_pod_annotation :
    (a : PodAnnotation) (m : Dict Text)
    → AsciiAnnotation a
    → get_pod_annotation (set_pod_annotation a m) ≡ annotated a
unfolding get_pod_annotation marshal print
get_pod_annotation-set_pod_annotation a m h =
    ap text_answer (lookup-set_pod_annotation a m) ∙ ap parsed_answer (unmarshal-marshal a h)
