-- ===== src/Ovndb/Vip/Roundtrip.antt =====
-- pkg/ovndb/load_balancer.go: parsing gives back what building was given.
use zstack_ovn_kubernetes.Base.{
  ℕ, zero, suc, ◌+◌, ◌/◌, ◌%◌, ◌≤◌, ◌≡◌, refl, ap, ◌∙◌, true, false, ◌||◌, List, [], ◌∷◌, ◌++◌,
  Text, none, some, if◌then◌else◌, has_prefix, take, drop, decimal, decimal_fuel, contains_byte,
  join, split, length, All, All-append, arith, Bool-cases, inl, inr, ltb,
}
use zstack_ovn_kubernetes.Ovndb.Vip.{last_index, build_vip, parse_vip}

abbrev pub IsDigit : ℕ → Type 0
IsDigit c = (b'0' ≤ c) × (c ≤ b'9')

decimal_fuel-IsDigit : (f n : ℕ) → All IsDigit (decimal_fuel f n)
unfolding decimal_fuel
decimal_fuel-IsDigit zero n = tt
decimal_fuel-IsDigit (suc f) n = elim (Bool-cases (ltb n 10)) [
  | inl small ↦ rw small (ground arith, tt)
  | inr large ↦ rw large (
      All-append IsDigit (decimal_fuel f (n / 10)) ((b'0' + n % 10) ∷ [])
        (decimal_fuel-IsDigit f (n / 10)) (ground arith, tt))
]

pub decimal-IsDigit : (n : ℕ) → All IsDigit (decimal n)
unfolding decimal
decimal-IsDigit n = decimal_fuel-IsDigit 20 n

no_colon : (s : Text) → All IsDigit s → last_index s (b':' ∷ []) ≡ none
unfolding last_index has_prefix
no_colon [] h = refl
no_colon (c ∷ s) h = rw (no_colon s h.1) (ground arith)

no_bracket : (s : Text) → All IsDigit s → last_index s (b']' ∷ b':' ∷ []) ≡ none
unfolding last_index has_prefix
no_bracket [] h = refl
no_bracket (c ∷ s) h = rw (no_bracket s h.1) (ground arith)

at_colon : (s : Text) → All IsDigit s → last_index (b':' ∷ s) (b':' ∷ []) ≡ some 0
unfolding last_index has_prefix
at_colon s h = rw (no_colon s h) refl

at_bracket : (s : Text) → All IsDigit s → last_index (b']' ∷ b':' ∷ s) (b']' ∷ b':' ∷ []) ≡ some 0
unfolding last_index has_prefix
at_bracket s h = rw (no_bracket s h) refl

last_index-append :
    (a t sub : Text) → last_index t sub ≡ some 0 → last_index (a ++ t) sub ≡ some (length a)
unfolding last_index
last_index-append [] t sub h = h
last_index-append (c ∷ a) t sub h = rw (last_index-append a t sub h) refl

take-append : (a t : Text) → take (length a) (a ++ t) ≡ a
take-append [] t = refl
take-append (c ∷ a) t = ap (λ v. c ∷ v) (take-append a t)

drop-append : (a t : Text) (n : ℕ) → drop (length a + n) (a ++ t) ≡ drop n t
drop-append [] t n = let none_before : 0 + n ≡ n = omega arith in rw none_before refl
drop-append (c ∷ a) t n =
    let one_before : suc (length a) + n ≡ suc (length a + n) = omega arith in
    rw one_before (drop-append a t n)

four_prefix :
    (ip t : Text)
    → contains_byte b':' ip ≡ false
    → has_prefix ip (b'[' ∷ []) ≡ false
    → has_prefix (ip ++ b':' ∷ t) (b'[' ∷ []) ≡ false
unfolding has_prefix
four_prefix [] t c h = refl
four_prefix (x ∷ ip) t c h = h

-- ParseVIP gives back the address and the decimal port that BuildVIP was given: of every IPv6 address,
-- and of every address without a colon that does not begin with a bracket.
pub parse_vip-build_vip :
    (ip : Text) (port : ℕ)
    → (contains_byte b':' ip || (if has_prefix ip (b'[' ∷ []) then false else true)) ≡ true
    → parse_vip (build_vip ip port) ≡ some (ip, decimal port)
unfolding parse_vip build_vip has_prefix
parse_vip-build_vip ip port h = elim (Bool-cases (contains_byte b':' ip)) [
  | inl six ↦ rw (six, parse_vip) (six_parts (decimal port) (decimal-IsDigit port))
  | inr four ↦
      rw (four, parse_vip) (four_parts four (ground arith) (decimal port) (decimal-IsDigit port))
]
  where
    six_parts :
        (d : Text) → All IsDigit d → parse_vip (b'[' ∷ (ip ++ (b']' ∷ b':' ∷ d))) ≡ some (ip, d)
    six_parts d hd =
        rw
          (
            last_index-append (b'[' ∷ ip) (b']' ∷ b':' ∷ d) (b']' ∷ b':' ∷ []) (at_bracket d hd),
            take-append ip (b']' ∷ b':' ∷ d),
            drop-append (b'[' ∷ ip) (b']' ∷ b':' ∷ d) 2,
          )
          refl

    four_parts :
        contains_byte b':' ip ≡ false
        → has_prefix ip (b'[' ∷ []) ≡ false
        → (d : Text) → All IsDigit d
        → parse_vip (ip ++ (b':' ∷ d)) ≡ some (ip, d)
    four_parts c p d hd =
        rw
          (
            four_prefix ip d c p,
            last_index-append ip (b':' ∷ d) (b':' ∷ []) (at_colon d hd),
            take-append ip (b':' ∷ d),
            drop-append ip (b':' ∷ d) 1,
          )
          refl

abbrev pub CommaFree : Text → Type 0
CommaFree s = contains_byte b',' s ≡ false

split_one : (s : Text) → CommaFree s → split s b',' ≡ s ∷ []
unfolding split contains_byte
split_one [] h = refl
split_one (c ∷ s) h =
    let rest : split s b',' ≡ s ∷ [] = split_one s (ground arith) in rw rest (ground arith)

split_more : (s t : Text) → CommaFree s → split (s ++ (b',' ∷ t)) b',' ≡ s ∷ split t b','
unfolding split contains_byte
split_more [] t h = refl
split_more (c ∷ s) t h =
    let rest : split (s ++ (b',' ∷ t)) b',' ≡ s ∷ split t b',' = split_more s t (ground arith) in
    rw rest (ground arith)

pub split-join :
    (b : Text) (backends : List Text)
    → All CommaFree (b ∷ backends)
    → split (join (b ∷ backends) (b',' ∷ [])) b',' ≡ b ∷ backends
unfolding join
split-join b [] h = split_one b h.0
split-join b (c ∷ backends) h =
    split_more b (join (c ∷ backends) (b',' ∷ [])) h.0 ∙ ap (λ v. b ∷ v) (split-join c backends h.1)
