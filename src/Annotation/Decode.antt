-- ===== src/Annotation/Decode.antt =====
-- pkg/util/annotation.go: reading the annotation's JSON text, in which no key stands twice.
use zstack_ovn_kubernetes.Base.{
  Bool, List, [], ◌∷◌, Text, codes, Option, none, some, if◌then◌else◌, text_eq, to_lower,
}
use zstack_ovn_kubernetes.Json.{
  Json, Elements, Members, null, str, arr, obj, none_left, element, no_member, member,
}
use zstack_ovn_kubernetes.Json.Parse.{parse_json}
use zstack_ovn_kubernetes.Annotation.{PodRoute, PodAnnotation, zero_annotation}

-- What json.Unmarshal makes of a value in a field that holds a value: null changes nothing, another type
-- is an error.
abbrev pub decode_text : Text → Json → Option Text
decode_text old null = some old
decode_text old (str s) = some s
decode_text old j = none

abbrev pub cons_decoded : {A : Type 0} → Option A → Option (List A) → Option (List A)
cons_decoded none rest = none
cons_decoded (some a) none = none
cons_decoded (some a) (some rest) = some (a ∷ rest)

unfoldable pub decode_text_list : Elements → Option (List Text)
decode_text_list none_left = some []
decode_text_list (element j js) = cons_decoded (decode_text [] j) (decode_text_list js)

abbrev pub some_list : {A : Type 0} → Option (List A) → Option (Option (List A))
some_list none = none
some_list (some l) = some (some l)

abbrev pub decode_texts : Json → Option (Option (List Text))
decode_texts null = some none
decode_texts (arr js) = some_list (decode_text_list js)
decode_texts j = none

-- A key names a field in any case; an unknown key is skipped.
abbrev pub is_key : Text → Text → Bool
is_key key name = text_eq (to_lower key) (to_lower name)

abbrev pub and_then : {A B : Type 0} → Option A → (A → Option B) → Option B
and_then none f = none
and_then (some a) f = f a

abbrev pub decode_route_member : Text → Json → PodRoute → Option PodRoute
decode_route_member key j r =
    if is_key key (codes "dest")
    then and_then (decode_text r.dest j) (λ t. some (record r { dest = t }))
    else if is_key key (codes "nextHop")
    then and_then (decode_text r.next_hop j) (λ t. some (record r { next_hop = t }))
    else some r

unfoldable pub decode_route_members : Members → PodRoute → Option PodRoute
decode_route_members no_member r = some r
decode_route_members (member key j ms) r =
    and_then (decode_route_member key j r) (λ q. decode_route_members ms q)

abbrev pub zero_route : PodRoute
zero_route = record { dest = []; next_hop = [] }

abbrev pub decode_route : Json → Option PodRoute
decode_route null = some zero_route
decode_route (obj ms) = decode_route_members ms zero_route
decode_route j = none

unfoldable pub decode_route_list : Elements → Option (List PodRoute)
unfolding decode_route_members
decode_route_list none_left = some []
decode_route_list (element j js) = cons_decoded (decode_route j) (decode_route_list js)

abbrev pub decode_routes : Json → Option (List PodRoute)
decode_routes null = some []
decode_routes (arr js) = decode_route_list js
decode_routes j = none

abbrev pub decode_member : Text → Json → PodAnnotation → Option PodAnnotation
decode_member key j a =
    if is_key key (codes "ip_addresses")
    then and_then (decode_texts j) (λ l. some (record a { ip_addresses = l }))
    else if is_key key (codes "mac_address")
    then and_then (decode_text a.mac_address j) (λ t. some (record a { mac_address = t }))
    else if is_key key (codes "gateway_ips")
    then and_then (decode_texts j) (λ l. some (record a { gateway_ips = l }))
    else if is_key key (codes "routes")
    then and_then (decode_routes j) (λ l. some (record a { routes = l }))
    else if is_key key (codes "logical_switch")
    then and_then (decode_text a.logical_switch j) (λ t. some (record a { logical_switch = t }))
    else if is_key key (codes "logical_switch_port")
    then and_then (decode_text a.logical_switch_port j)
        (λ t. some (record a { logical_switch_port = t }))
    else if is_key key (codes "subnet")
    then and_then (decode_text a.subnet j) (λ t. some (record a { subnet = t }))
    else some a

unfoldable pub decode_members : Members → PodAnnotation → Option PodAnnotation
unfolding decode_text_list decode_route_list
decode_members no_member a = some a
decode_members (member key j ms) a = and_then (decode_member key j a) (λ b. decode_members ms b)

abbrev pub decode_annotation : Json → Option PodAnnotation
decode_annotation null = some zero_annotation
decode_annotation (obj ms) = decode_members ms zero_annotation
decode_annotation j = none

unfoldable pub unmarshal : Text → Option PodAnnotation
unfolding parse_json decode_members
unmarshal s = and_then (parse_json s) decode_annotation
