-- ===== src/Annotation/Validate.antt =====
-- pkg/util/annotation.go: Validate.
use zstack_ovn_kubernetes.Base.{
  ℕ, Bool, true, false, ◌&&◌, ◌||◌, List, [], ◌∷◌, Text, Option, none, some, if◌then◌else◌,
  is_empty, split, length, ◌==◌, leb,
}
use zstack_ovn_kubernetes.Net.Ip.{is_nil}
use zstack_ovn_kubernetes.Net.Parse.{parse_ip, parse_cidr}
use zstack_ovn_kubernetes.Annotation.{PodAnnotation, PodRoute}
use zstack_ovn_kubernetes.Annotation.Operations.{before_slash}

-- The first error that Validate returns.
pub data Problem : Type 0 where
  ip_addresses_required : Problem
  invalid_ip_address : Text → Problem
  mac_address_required : Problem
  invalid_mac_address : Text → Problem
  gateway_ips_required : Problem
  invalid_gateway_ip : Text → Problem
  invalid_route_destination : Text → Problem
  invalid_next_hop : Text → Problem

-- net.ParseMAC: groups of two hexadecimal digits between colons or hyphens, or of four between points,
-- for 6, 8 or 20 bytes.
abbrev is_hex_digit : ℕ → Bool
is_hex_digit c =
    (leb b'0' c && leb c b'9') || ((leb b'a' c && leb c b'f') || (leb b'A' c && leb c b'F'))

abbrev all_hex : Text → Bool
all_hex [] = true
all_hex (c ∷ s) = is_hex_digit c && all_hex s

abbrev are_groups : ℕ → List Text → Bool
are_groups n [] = true
are_groups n (g ∷ gs) = (length g == n) && (all_hex g && are_groups n gs)

abbrev is_byte_count : ℕ → Bool
is_byte_count n = (n == 6) || ((n == 8) || (n == 20))

abbrev byte_groups : List Text → Bool
byte_groups gs = is_byte_count (length gs) && are_groups 2 gs

abbrev pair_groups : List Text → Bool
pair_groups gs = ((length gs == 3) || ((length gs == 4) || (length gs == 10))) && are_groups 4 gs

abbrev pub is_mac : Text → Bool
is_mac s = byte_groups (split s b':') || (byte_groups (split s b'-') || pair_groups (split s b'.'))

abbrev is_cidr : Text → Bool
is_cidr s = elim (parse_cidr s) [ none ↦ false | some net ↦ true ]

-- A CIDR, or else an address up to the first slash.
abbrev pub is_address : Text → Bool
is_address s =
    if is_cidr s then true else if is_nil (parse_ip (before_slash s)) then false else true

abbrev check_ips : List Text → Option Problem → Option Problem
check_ips [] rest = rest
check_ips (s ∷ ss) rest = if is_address s then check_ips ss rest else some (invalid_ip_address s)

abbrev check_mac : Text → Option Problem → Option Problem
check_mac mac rest =
    if is_empty mac
    then some mac_address_required
    else if is_mac mac
    then rest
    else some (invalid_mac_address mac)

abbrev check_gateways : List Text → Option Problem → Option Problem
check_gateways [] rest = rest
check_gateways (s ∷ ss) rest =
    if is_nil (parse_ip s) then some (invalid_gateway_ip s) else check_gateways ss rest

abbrev check_routes : List PodRoute → Option Problem
check_routes [] = none
check_routes (r ∷ rs) =
    if is_cidr r.dest
    then if is_nil (parse_ip r.next_hop)
      then some (invalid_next_hop r.next_hop)
      else check_routes rs
    else some (invalid_route_destination r.dest)

abbrev required : Option (List Text) → Problem → (List Text → Option Problem) → Option Problem
required none p check = some p
required (some []) p check = some p
required (some (s ∷ ss)) p check = check (s ∷ ss)

unfoldable pub validate : PodAnnotation → Option Problem
unfolding parse_ip parse_cidr split
validate a = required a.ip_addresses ip_addresses_required (λ ips. check_ips ips (
    check_mac a.mac_address (
      required a.gateway_ips gateway_ips_required
        (λ gws. check_gateways gws (check_routes a.routes)))))
