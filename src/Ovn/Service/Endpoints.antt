-- ===== src/Ovn/Service/Endpoints.antt =====
-- pkg/ovn/service_controller.go: which endpoints a Service gets, and that the backends text lists
-- exactly them.
use zstack_ovn_kubernetes.Base.{
  ℕ, ◌≡◌, refl, ap, ◌∙◌, Bool, true, false, not, ◌&&◌, ◌||◌, List, [], ◌∷◌, ◌++◌, map, Text,
  text_eq, Bool-cases, inl, inr, arith, All, contains_byte, join, split, decimal, is_empty,
}
use zstack_ovn_kubernetes.Ovndb.Vip.{build_vip, build_backends, parse_backends}
use zstack_ovn_kubernetes.Ovndb.Vip.Roundtrip.{CommaFree, split-join, decimal-IsDigit, IsDigit}
use zstack_ovn_kubernetes.Ovn.Service.{
  Endpoint, EndpointSlice, EndpointInfo, endpoint_info, endpoint_infos, get_endpoints_for_service,
  skipped, supported, is_ready, is_serving, is_terminating, build_endpoint_backends, endpoint_vip,
}

-- An address is among a list's.
unfoldable pub listed : Text → List Text → Bool
listed a [] = false
listed a (b ∷ l) = text_eq a b || listed a l

abbrev pub address_of : EndpointInfo → Text
address_of e = e.address

-- An endpoint may be used when it is ready or serving, and not terminating.
abbrev pub usable : Endpoint → Bool
usable e = (is_ready e || is_serving e) && not (is_terminating e)

unfoldable pub offers : Text → List Endpoint → Bool
unfolding listed
offers a [] = false
offers a (e ∷ es) = (usable e && listed a e.addresses) || offers a es

unfoldable pub slices_offer : Text → List EndpointSlice → Bool
unfolding offers
slices_offer a [] = false
slices_offer a (s ∷ slices) =
    (supported s.address_type && offers a s.endpoints) || slices_offer a slices

listed-append : (a : Text) (l m : List Text) → listed a (l ++ m) ≡ (listed a l || listed a m)
unfolding listed
listed-append a [] m = refl
listed-append a (b ∷ l) m = ground (arith, listed-append a l m)

map-append_infos :
    (l m : List EndpointInfo) → map address_of (l ++ m) ≡ map address_of l ++ map address_of m
map-append_infos [] m = refl
map-append_infos (e ∷ l) m = ap (λ v. e.address ∷ v) (map-append_infos l m)

own_addresses :
    (e : Endpoint) (addrs : List Text) → map address_of (map (endpoint_info e) addrs) ≡ addrs
own_addresses e [] = refl
own_addresses e (a ∷ addrs) = ap (λ v. a ∷ v) (own_addresses e addrs)

endpoint_infos-listed :
    (a : Text) (es : List Endpoint) → listed a (map address_of (endpoint_infos es)) ≡ offers a es
unfolding endpoint_infos offers listed
endpoint_infos-listed a [] = refl
endpoint_infos-listed a (e ∷ es) = elim (Bool-cases (skipped e)) [
  | inl skip ↦ rw (skip, endpoint_infos-listed a es) (ground arith)
  | inr keep ↦
      let good : usable e ≡ true = ground arith in
      rw
        (
          keep,
          good,
          map-append_infos (map (endpoint_info e) e.addresses) (endpoint_infos es),
          own_addresses e e.addresses,
          listed-append a e.addresses (map address_of (endpoint_infos es)),
          endpoint_infos-listed a es,
        )
        refl
]

-- getEndpointsForService has an address exactly when a slice of a supported address type has an
-- endpoint with that address that is ready or serving and not terminating.
pub get_endpoints_for_service-listed :
    (a : Text) (slices : List EndpointSlice)
    → listed a (map address_of (get_endpoints_for_service slices)) ≡ slices_offer a slices
unfolding get_endpoints_for_service slices_offer listed
get_endpoints_for_service-listed a [] = refl
get_endpoints_for_service-listed a (s ∷ slices) = elim (Bool-cases (supported s.address_type)) [
  | inl good ↦
      rw
        (
          good,
          map-append_infos (endpoint_infos s.endpoints) (get_endpoints_for_service slices),
          listed-append a (map address_of (endpoint_infos s.endpoints))
              (map address_of (get_endpoints_for_service slices)),
          endpoint_infos-listed a s.endpoints,
          get_endpoints_for_service-listed a slices,
        )
        refl
  | inr bad ↦ rw (bad, get_endpoints_for_service-listed a slices) refl
]

contains_byte-append :
    (b : ℕ) (s t : Text) → contains_byte b (s ++ t) ≡ (contains_byte b s || contains_byte b t)
unfolding contains_byte
contains_byte-append b [] t = refl
contains_byte-append b (c ∷ s) t = ground (arith, contains_byte-append b s t)

digits_free : (s : Text) → All IsDigit s → CommaFree s
unfolding contains_byte
digits_free [] h = refl
digits_free (c ∷ s) h = ground (arith, h.0, digits_free s h.1)

vip_free : (ip : Text) (port : ℕ) → CommaFree ip → CommaFree (build_vip ip port)
unfolding build_vip contains_byte
vip_free ip port h = elim (Bool-cases (contains_byte b':' ip)) [
  | inl six ↦ rw six (
      ground (
        arith,
        contains_byte-append b',' ip (b']' ∷ b':' ∷ decimal port),
        digits_free (decimal port) (decimal-IsDigit port),
      ))
  | inr four ↦ rw four (
      ground (
        arith,
        contains_byte-append b',' ip (b':' ∷ decimal port),
        digits_free (decimal port) (decimal-IsDigit port),
      ))
]

vips_free :
    (endpoints : List EndpointInfo) (target : ℕ)
    → All (λ e. CommaFree e.address) endpoints
    → All CommaFree (map (endpoint_vip target) endpoints)
vips_free [] target h = tt
vips_free (e ∷ endpoints) target h = (vip_free e.address target h.0, vips_free endpoints target h.1)

vip_not_empty : (ip : Text) (port : ℕ) → is_empty (build_vip ip port) ≡ false
unfolding build_vip
vip_not_empty ip port = elim (Bool-cases (contains_byte b':' ip)) [
  | inl six ↦ rw six refl
  | inr four ↦ rw four (longer ip)
]
  where
    longer : (a : Text) → is_empty (a ++ (b':' ∷ decimal port)) ≡ false
    longer [] = refl
    longer (c ∷ a) = refl

join_not_empty :
    (p : Text) (rest : List Text)
    → is_empty p ≡ false
    → is_empty (join (p ∷ rest) (b',' ∷ [])) ≡ false
unfolding join
join_not_empty [] rest h = absurd cc
join_not_empty (c ∷ p) [] h = refl
join_not_empty (c ∷ p) (q ∷ rest) h = refl

parse_not_empty : (s : Text) → is_empty s ≡ false → parse_backends s ≡ split s b','
unfolding parse_backends
parse_not_empty [] h = absurd cc
parse_not_empty (c ∷ s) h = refl

-- ParseBackends of what buildBackends makes lists the virtual address of every endpoint, in order, when
-- no endpoint's address has a comma.
pub parse_backends-build_endpoint_backends :
    (endpoints : List EndpointInfo) (target : ℕ)
    → All (λ e. CommaFree e.address) endpoints
    → parse_backends (build_endpoint_backends endpoints target)
      ≡ map (endpoint_vip target) endpoints
unfolding build_endpoint_backends build_backends
parse_backends-build_endpoint_backends [] target h = unfold parse_backends join in refl
parse_backends-build_endpoint_backends (e ∷ endpoints) target h =
    parse_not_empty (join (map (endpoint_vip target) (e ∷ endpoints)) (b',' ∷ [])) (
      join_not_empty (build_vip e.address target) (map (endpoint_vip target) endpoints)
        (vip_not_empty e.address target))
    ∙ split-join (build_vip e.address target) (map (endpoint_vip target) endpoints)
        (vips_free (e ∷ endpoints) target h)
