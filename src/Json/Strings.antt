-- ===== src/Json/Strings.antt =====
-- encoding/json: the contents of a string, up to its closing quote.
use zstack_ovn_kubernetes.Base.{
  ℕ, zero, suc, ◌+◌, ◌-◌, ◌*◌, ◌/◌, ◌%◌, ◌<◌, ◌≡◌, refl, sym, ap, ◌∙◌, Bool, true, false, ◌&&◌,
  ◌||◌, [], ◌∷◌, ◌++◌, append_assoc, Text, codes, Option, none, some, if◌then◌else◌, ltb, leb, ◌==◌,
  arith, All, Bool-cases, inl, inr, ==_iff, subst,
}
use zstack_ovn_kubernetes.Json.{escape, escape_byte, hex_digit}

-- Between characters, after a backslash, or with some hexadecimal digits to read after "\u".
pub data Mode : Type 0 where
  plain : Mode
  escaped : Mode
  hex : ℕ → ℕ → Mode

-- The string ends, is refused, or goes on: with what was read, a high surrogate that waits for its
-- partner, and the mode.
pub data Action : Type 0 where
  finish : Text → Action
  refuse : Action
  next : Text → Option ℕ → Mode → Action

-- The UTF-8 encoding of a code point.
abbrev pub utf8 : ℕ → Text
utf8 v =
    if ltb v 128
    then v ∷ []
    else if ltb v 2048
    then (192 + v / 64) ∷ (128 + v % 64) ∷ []
    else if ltb v 65536
    then (224 + v / 4096) ∷ (128 + v / 64 % 64) ∷ (128 + v % 64) ∷ []
    else (240 + v / 262144) ∷ (128 + v / 4096 % 64) ∷ (128 + v / 64 % 64) ∷ (128 + v % 64) ∷ []

-- A surrogate without its partner reads as U+FFFD.
abbrev pub replacement : Text
replacement = utf8 65533

abbrev pub flush : Option ℕ → Text
flush none = []
flush (some high) = replacement

abbrev is_high : ℕ → Bool
is_high v = leb 55296 v && ltb v 56320

abbrev is_low : ℕ → Bool
is_low v = leb 56320 v && ltb v 57344

abbrev lone : ℕ → Text → Action
lone v before =
    if is_high v
    then next before (some v) plain
    else if is_low v
    then next (before ++ replacement) none plain
    else next (before ++ utf8 v) none plain

-- The four digits after "\u" are read.
abbrev pub code_unit : Option ℕ → ℕ → Action
code_unit none v = lone v []
code_unit (some high) v =
    if is_low v
    then next (utf8 (65536 + (high - 55296) * 1024 + (v - 56320))) none plain
    else lone v replacement

abbrev pub hex_value : ℕ → Option ℕ
hex_value c =
    if leb b'0' c && leb c b'9'
    then some (c - b'0')
    else if leb b'a' c && leb c b'f'
    then some (c - 87)
    else if leb b'A' c && leb c b'F'
    then some (c - 55)
    else none

abbrev pub hex_step : Option ℕ → ℕ → ℕ → Option ℕ → Action
hex_step pending left value none = refuse
hex_step pending zero value (some d) = code_unit pending (value * 16 + d)
hex_step pending (suc left) value (some d) = next [] pending (hex left (value * 16 + d))

abbrev pub step : Option ℕ → Mode → ℕ → Action
step pending plain c =
    if c == b'"'
    then finish (flush pending)
    else if c == 92
    then next [] pending escaped
    else if ltb c 32
    then refuse
    else next (flush pending ++ c ∷ []) none plain
step pending escaped c =
    if (c == b'"') || (c == 92) || (c == b'/')
    then next (flush pending ++ c ∷ []) none plain
    else if c == b'b'
    then next (flush pending ++ 8 ∷ []) none plain
    else if c == b'f'
    then next (flush pending ++ 12 ∷ []) none plain
    else if c == b'n'
    then next (flush pending ++ 10 ∷ []) none plain
    else if c == b'r'
    then next (flush pending ++ 13 ∷ []) none plain
    else if c == b't'
    then next (flush pending ++ 9 ∷ []) none plain
    else if c == b'u'
    then next [] pending (hex 3 0)
    else refuse
step pending (hex left value) c = hex_step pending left value (hex_value c)

abbrev pub emit : Text → Option (Text × Text) → Option (Text × Text)
emit out none = none
emit out (some (s, rest)) = some (out ++ s, rest)

abbrev pub act : Action → (Option ℕ → Mode → Option (Text × Text)) → Text → Option (Text × Text)
act (finish out) go s = some (out, s)
act refuse go s = none
act (next out pending mode) go s = emit out (go pending mode)

unfoldable pub scan : Option ℕ → Mode → Text → Option (Text × Text)
scan pending mode [] = none
scan pending mode (c ∷ s) = act (step pending mode c) (λ p m. scan p m s) s

emit-emit : (a b : Text) (r : Option (Text × Text)) → emit a (emit b r) ≡ emit (a ++ b) r
emit-emit a b none = refl
emit-emit a b (some (s, rest)) = ap (λ (v : Text). some (v, rest)) (sym (append_assoc a b s))

hex_value-hex_digit : (n : ℕ) → n < 16 → hex_value (hex_digit n) ≡ some n
hex_value-hex_digit n h = ground arith

emit-nil : (r : Option (Text × Text)) → emit [] r ≡ r
emit-nil none = refl
emit-nil (some (s, rest)) = refl

module _ (t : Text) where
  abbrev rest_of : Option (Text × Text)
  rest_of = scan none plain t

  -- A byte that Marshal writes as it is.
  plain_byte :
      (c : ℕ)
      → (c == b'"') ≡ false
      → (c == 92) ≡ false
      → ltb c 32 ≡ false
      → scan none plain (c ∷ t) ≡ emit (c ∷ []) rest_of
  unfolding scan
  plain_byte c q b l = rw (q, scan) (rw b (rw l refl))

  after_hex :
      (pending : Option ℕ) (left value n : ℕ)
      → n < 16
      → scan pending (hex left value) (hex_digit n ∷ t)
        ≡ act (hex_step pending left value (some n)) (λ p m. scan p m t) t
  unfolding scan
  after_hex pending left value n h =
      ap (λ (o : Option ℕ). act (hex_step pending left value o) (λ p m. scan p m t) t)
        (hex_value-hex_digit n h)

small_unit : (c : ℕ) → c < 128 → code_unit none c ≡ next (c ∷ []) none plain
small_unit c low = ground arith

-- A byte below 128 as "\\u00" and two digits.
unicode_byte :
    (c : ℕ) (t : Text)
    → c < 128
    → scan none plain (codes "\\u00" ++ hex_digit (c / 16) ∷ hex_digit (c % 16) ∷ t)
      ≡ emit (c ∷ []) (scan none plain t)
unicode_byte c t low =
    let high_digit = after_hex (hex_digit (c % 16) ∷ t) none 1 0 (c / 16) (omega arith) in
    let low_digit = after_hex t none 0 (0 * 16 + c / 16) (c % 16) (omega arith) in
    let value : (0 * 16 + c / 16) * 16 + c % 16 ≡ c = omega arith in
    let unit : code_unit none ((0 * 16 + c / 16) * 16 + c % 16) ≡ next (c ∷ []) none plain =
      ap (code_unit none) value ∙ small_unit c low in
    opening (hex_digit (c / 16) ∷ hex_digit (c % 16) ∷ t)
    ∙ (high_digit
        ∙ (emit-nil (scan none (hex 0 (0 * 16 + c / 16)) (hex_digit (c % 16) ∷ t))
            ∙ (low_digit ∙ ap (λ (a : Action). act a (λ p m. scan p m t) t) unit)))
  where
    opening : (u : Text) → scan none plain (codes "\\u00" ++ u) ≡ scan none (hex 1 0) u
    opening u =
        let r = scan none (hex 1 0) u in
        unfold scan in (emit-nil _ ∙ (emit-nil _ ∙ (emit-nil _ ∙ emit-nil r)))

abbrev Escapes : Text → ℕ → Type 0
Escapes t c = scan none plain (escape_byte c ++ t) ≡ emit (c ∷ []) (scan none plain t)

-- A byte whose escape is a backslash and one more byte.
short_escape : (t : Text) (c v : ℕ) → c ≡ v → Escapes t v → Escapes t c
short_escape t c v e h = subst (Escapes t) (sym e) h

quote-Escapes : (t : Text) → Escapes t b'"'
unfolding scan
quote-Escapes t = emit-nil _

backslash-Escapes : (t : Text) → Escapes t 92
unfolding scan
backslash-Escapes t = emit-nil _

newline-Escapes : (t : Text) → Escapes t 10
unfolding scan
newline-Escapes t = emit-nil _

return-Escapes : (t : Text) → Escapes t 13
unfolding scan
return-Escapes t = emit-nil _

tab-Escapes : (t : Text) → Escapes t 9
unfolding scan
tab-Escapes t = emit-nil _

escape_byte-Escapes : (t : Text) (c : ℕ) → c < 128 → Escapes t c
escape_byte-Escapes t c low = elim (Bool-cases (c == b'"')) [
  | inl e ↦ short_escape t c b'"' ((==_iff c b'"').0 e) (quote-Escapes t)
  | inr q ↦ elim (Bool-cases (c == 92)) [
    | inl e ↦ short_escape t c 92 ((==_iff c 92).0 e) (backslash-Escapes t)
    | inr b ↦ elim (Bool-cases (c == 10)) [
      | inl e ↦ short_escape t c 10 ((==_iff c 10).0 e) (newline-Escapes t)
      | inr n ↦ elim (Bool-cases (c == 13)) [
        | inl e ↦ short_escape t c 13 ((==_iff c 13).0 e) (return-Escapes t)
        | inr r ↦ elim (Bool-cases (c == 9)) [
          | inl e ↦ short_escape t c 9 ((==_iff c 9).0 e) (tab-Escapes t)
          | inr tab ↦
              (rw (q, b)
                (rw n (
                  rw r (
                    rw tab
                      (last q b (ltb c 32 || (c == b'<') || (c == b'>') || (c == b'&')) refl)))))
        ]
      ]
    ]
  ]
]
  where
    last :
        (c == b'"') ≡ false
        → (c == 92) ≡ false
        → (test : Bool) → (ltb c 32 || (c == b'<') || (c == b'>') || (c == b'&')) ≡ test
        → scan none plain (
            (if test then codes "\\u00" ++ hex_digit (c / 16) ∷ hex_digit (c % 16) ∷ [] else c ∷ [])
            ++ t)
          ≡ emit (c ∷ []) (scan none plain t)
    last q b true e = unicode_byte c t low
    last q b false e = plain_byte t c q b (ground arith)

abbrev pub Ascii : Text → Type 0
Ascii s = All (λ c. c < 128) s

-- A quoted string reads back, with what follows it.
pub scan-escape : (s t : Text) → Ascii s → scan none plain (escape s ++ b'"' ∷ t) ≡ some (s, t)
unfolding escape
scan-escape [] t h = unfold scan in refl
scan-escape (c ∷ s) t h =
    ap (scan none plain) (append_assoc (escape_byte c) (escape s) (b'"' ∷ t))
    ∙ (escape_byte-Escapes (escape s ++ b'"' ∷ t) c h.0 ∙ ap (emit (c ∷ [])) (scan-escape s t h.1))
