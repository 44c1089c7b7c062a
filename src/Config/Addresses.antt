-- ===== src/Config/Addresses.antt =====
-- pkg/config/config.go: the database addresses that validateDBAddressFormat passes.
use zstack_ovn_kubernetes.Base.{
  ◌≡◌, ◌≢◌, refl, ◌↔◌, ◌⊎◌, inl, inr, true, false, List, [], ◌∷◌, ◌++◌, ap, ◌∙◌, Text, Option, none,
  some, has_prefix, contains_byte, trim_space, split, drop, length, arith, All, subst, sym,
  Bool-cases, ◌==◌, ==_iff,
}
use zstack_ovn_kubernetes.Config.Address.{
  AddressError, trim_prefix, tcp, ssl, unix, check_address, check_part, check_parts,
  validate_db_address_format,
}

-- A text with a colon in it, "host:port".
abbrev pub Endpoint : Text → Type 0
Endpoint s = (host port : Text) × (s ≡ host ++ b':' ∷ port)

-- An address that is passed: nothing but blanks, a socket, or a scheme before an endpoint. After
-- "tcp:" a further "ssl:" is skipped.
pub data AddressPart (a : Text) : Type 0 where
  blank : a ≡ [] → AddressPart a
  socket : (path : Text) → a ≡ unix ++ path → AddressPart a
  secure : (endpoint : Text) → Endpoint endpoint → a ≡ ssl ++ endpoint → AddressPart a
  plain :
      (endpoint : Text)
      → has_prefix endpoint ssl ≡ false
      → Endpoint endpoint
      → a ≡ tcp ++ endpoint
      → AddressPart a
  doubled : (endpoint : Text) → Endpoint endpoint → a ≡ tcp ++ (ssl ++ endpoint) → AddressPart a

contains_byte-Endpoint : (s : Text) → (contains_byte b':' s ≡ true) ↔ Endpoint s
unfolding contains_byte
contains_byte-Endpoint s = (found s, λ e. rw e.2 (present e.0 e.1))
  where
    present : (host port : Text) → contains_byte b':' (host ++ b':' ∷ port) ≡ true
    present [] port = refl
    present (c ∷ host) port = ground (arith, present host port)

    found : (s : Text) → contains_byte b':' s ≡ true → Endpoint s
    found [] h = absurd cc
    found (c ∷ s) h = elim (Bool-cases (c == b':')) [
      | inl e ↦ ([], s, rw ((==_iff c b':').0 e) refl)
      | inr e ↦
          let (host, port, q) = found s (ground arith) in
          (c ∷ host, port, ap (λ (t : Text). c ∷ t) q)
    ]

has_prefix-append : (p s : Text) → has_prefix (p ++ s) p ≡ true
unfolding has_prefix
has_prefix-append [] s = refl
has_prefix-append (c ∷ p) s = ground (arith, has_prefix-append p s)

has_prefix_rest : (s p : Text) → has_prefix s p ≡ true → (rest : Text) × (s ≡ p ++ rest)
unfolding has_prefix
has_prefix_rest s [] h = (s, refl)
has_prefix_rest [] (c ∷ p) h = absurd cc
has_prefix_rest (d ∷ s) (c ∷ p) h =
    let (rest, e) = has_prefix_rest s p (ground arith) in (rest, ground arith)

drop-append : (p s : Text) → drop (length p) (p ++ s) ≡ s
drop-append [] s = refl
drop-append (c ∷ p) s = drop-append p s

trim_prefix-append : (s p : Text) → trim_prefix (p ++ s) p ≡ s
unfolding trim_prefix
trim_prefix-append s p = rw (has_prefix-append p s) (drop-append p s)

trim_prefix-none : (s p : Text) → has_prefix s p ≡ false → trim_prefix s p ≡ s
unfolding trim_prefix
trim_prefix-none s p e = rw e refl

-- What is left of an address after both trims.
host_port-plain :
    (endpoint : Text)
    → has_prefix endpoint ssl ≡ false
    → trim_prefix (trim_prefix (tcp ++ endpoint) tcp) ssl ≡ endpoint
host_port-plain endpoint e =
    ap (λ (t : Text). trim_prefix t ssl) (trim_prefix-append endpoint tcp)
    ∙ trim_prefix-none endpoint ssl e

host_port-doubled :
    (endpoint : Text) → trim_prefix (trim_prefix (tcp ++ (ssl ++ endpoint)) tcp) ssl ≡ endpoint
host_port-doubled endpoint =
    ap (λ (t : Text). trim_prefix t ssl) (trim_prefix-append (ssl ++ endpoint) tcp)
    ∙ trim_prefix-append endpoint ssl

host_port-secure :
    (endpoint : Text) → trim_prefix (trim_prefix (ssl ++ endpoint) tcp) ssl ≡ endpoint
host_port-secure endpoint =
    ap (λ (t : Text). trim_prefix t ssl)
      (trim_prefix-none (ssl ++ endpoint) tcp (unfold has_prefix in refl))
    ∙ trim_prefix-append endpoint ssl

checked_endpoint :
    (a rest : Text)
    → trim_prefix (trim_prefix a tcp) ssl ≡ rest
    → (has_prefix a tcp ≡ true) ⊎ (has_prefix a ssl ≡ true)
    → (check_address a ≡ none) ↔ Endpoint rest
checked_endpoint a rest e scheme = (
  λ h. (contains_byte-Endpoint rest).0 (unfold check_address in ground arith),
  λ p. let found = (contains_byte-Endpoint rest).1 p in unfold check_address in ground arith,
)

tcp_first : (r : Text) → has_prefix (tcp ++ r) tcp ≡ true
tcp_first r = has_prefix-append tcp r

ssl_first : (r : Text) → has_prefix (ssl ++ r) ssl ≡ true
ssl_first r = has_prefix-append ssl r

AddressPart-check_part : (a : Text) → AddressPart a → check_part a ≡ none
unfolding check_address has_prefix
AddressPart-check_part a (blank e) = rw e refl
AddressPart-check_part a (socket path e) = rw e refl
AddressPart-check_part a (secure r p e) =
    rw e ((checked_endpoint (ssl ++ r) r (host_port-secure r) (inr (ssl_first r))).1 p)
AddressPart-check_part a (plain r n p e) =
    rw e ((checked_endpoint (tcp ++ r) r (host_port-plain r n) (inl (tcp_first r))).1 p)
AddressPart-check_part a (doubled r p e) = rw e (
    (checked_endpoint (tcp ++ (ssl ++ r)) r (host_port-doubled r) (inl (tcp_first (ssl ++ r)))).1 p)

tcp_passed : (r : Text) → check_address (tcp ++ r) ≡ none → AddressPart (tcp ++ r)
tcp_passed r h = elim (Bool-cases (has_prefix r ssl)) [
  | inl e ↦
      let (rest, q) = has_prefix_rest r ssl e in
      doubled rest
        ((checked_endpoint (tcp ++ r) rest (rw q (host_port-doubled rest)) (inl (tcp_first r))).0 h)
        (ap (λ (t : Text). tcp ++ t) q)
  | inr e ↦
      plain r e ((checked_endpoint (tcp ++ r) r (host_port-plain r e) (inl (tcp_first r))).0 h) refl
]

ssl_passed : (r : Text) → check_address (ssl ++ r) ≡ none → AddressPart (ssl ++ r)
ssl_passed r h =
    secure r ((checked_endpoint (ssl ++ r) r (host_port-secure r) (inr (ssl_first r))).0 h) refl

check_address-AddressPart : (a : Text) → check_address a ≡ none → AddressPart a
check_address-AddressPart a h = elim (Bool-cases (has_prefix a tcp)) [
  | inl e ↦
      let (r, q) = has_prefix_rest a tcp e in
      subst AddressPart (sym q) (tcp_passed r (ap check_address (sym q) ∙ h))
  | inr no_tcp ↦ elim (Bool-cases (has_prefix a ssl)) [
    | inl e ↦
        let (r, q) = has_prefix_rest a ssl e in
        subst AddressPart (sym q) (ssl_passed r (ap check_address (sym q) ∙ h))
    | inr no_ssl ↦ elim (Bool-cases (has_prefix a unix)) [
      | inl e ↦ let (r, q) = has_prefix_rest a unix e in socket r q
      | inr no_unix ↦ absurd (unfold check_address in ground arith)
    ]
  ]
]

check_part-AddressPart : (a : Text) → (check_part a ≡ none) ↔ AddressPart a
check_part-AddressPart [] = (λ h. blank refl, λ h. refl)
check_part-AddressPart (c ∷ s) = (check_address-AddressPart (c ∷ s), AddressPart-check_part (c ∷ s))

check_parts-All :
    (ps : List Text) → (check_parts ps ≡ none) ↔ All (λ p. AddressPart (trim_space p)) ps
unfolding check_parts
check_parts-All [] = (λ h. tt, λ h. refl)
check_parts-All (p ∷ ps) =
    let rest = check_parts-All ps in
    let part = check_part-AddressPart (trim_space p) in
    (
      λ h.
          let (now, later) = both (check_part (trim_space p)) (check_parts ps) h in
          (part.0 now, rest.0 later),
      λ h. rw (part.1 h.0, check_parts) (rest.1 h.1),
    )
  where
    both :
        (first rest : Option AddressError)
        → elim first [ none ↦ rest | some e ↦ some e ] ≡ none
        → (first ≡ none) × (rest ≡ none)
    both none rest h = (refl, h)
    both (some e) rest h = absurd cc

-- validateDBAddressFormat accepts a text exactly when it is not empty and each of its parts between
-- commas, with the blanks around it cut, is empty, or "unix:" and anything, or "ssl:", "tcp:" or
-- "tcp:ssl:" before a text with a colon in it.
pub validate_db_address_format-AddressPart :
    (a : Text)
    → (validate_db_address_format a ≡ none)
      ↔ ((a ≢ []) × All (λ p. AddressPart (trim_space p)) (split a b','))
unfolding validate_db_address_format
validate_db_address_format-AddressPart [] = (λ h. absurd cc, λ h. absurd (h.0 refl))
validate_db_address_format-AddressPart (c ∷ s) =
    let parts = check_parts-All (split (c ∷ s) b',') in
    (λ h. (λ e. cc, parts.0 h), λ h. parts.1 h.1)
