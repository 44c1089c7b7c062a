-- ===== src/Json/Roundtrip.antt =====
-- encoding/json: parsing what was printed.
use zstack_ovn_kubernetes.Base.{
  ℕ, zero, suc, ◌+◌, ◌*◌, ◌≤◌, ◌≡◌, refl, sym, ap, ◌∙◌, true, false, [], ◌∷◌, ◌++◌, append_assoc,
  append-nil, Text, Option, none, some, arith, length, length-append,
}
use zstack_ovn_kubernetes.Json.{
  Json, Elements, Members, null, bool, number, str, arr, obj, none_left, element, no_member, member,
  print, print_elements, print_members, quoted, escape,
}
use zstack_ovn_kubernetes.Json.Strings.{scan, plain, Ascii, scan-escape}
use zstack_ovn_kubernetes.Json.Parse.{
  parse_value, parse_elements, parse_members, parse_json, skip_blanks, word, value_body, as_string,
  as_array, as_object, array_body, element_then, after_element, and_elements, quote_then, key_then,
  value_then, after_member, and_members, whole_text,
}

-- Values without numbers whose strings are ASCII.
unfoldable mutual
  pub Plain : Json → Type 0
  Plain null = Unit {0}
  Plain (bool b) = Unit {0}
  Plain (number n) = ⊥
  Plain (str s) = Ascii s
  Plain (arr js) = PlainElements js
  Plain (obj ms) = PlainMembers ms

  pub PlainElements : Elements → Type 0
  PlainElements none_left = Unit {0}
  PlainElements (element j js) = Plain j × PlainElements js

  pub PlainMembers : Members → Type 0
  PlainMembers no_member = Unit {0}
  PlainMembers (member k j ms) = Ascii k × Plain j × PlainMembers ms

mutual
  size : Json → ℕ
  size null = 1
  size (bool b) = 1
  size (number n) = 1
  size (str s) = 1
  size (arr js) = 1 + size_elements js
  size (obj ms) = 1 + size_members ms

  size_elements : Elements → ℕ
  size_elements none_left = 0
  size_elements (element j js) = 1 + size j + size_elements js

  size_members : Members → ℕ
  size_members no_member = 0
  size_members (member k j ms) = 1 + size j + size_members ms

-- A value starts with no blank and no closing bracket.
array_body-print :
    (f : Text → Option (Elements × Text)) (j : Json) (t : Text)
    → Plain j
    → array_body f (skip_blanks (print j ++ t)) ≡ f (print j ++ t)
unfolding print skip_blanks Plain
array_body-print f null t p = refl
array_body-print f (bool true) t p = refl
array_body-print f (bool false) t p = refl
array_body-print f (number n) t p = elim p [ ]
array_body-print f (str s) t p = refl
array_body-print f (arr none_left) t p = refl
array_body-print f (arr (element j js)) t p = refl
array_body-print f (obj no_member) t p = refl
array_body-print f (obj (member k j ms)) t p = refl

-- A quoted key, a colon and what follows.
after_key :
    (value : Text → Option (Json × Text)) (more : Text → Option (Members × Text)) (k t : Text)
    → Ascii k
    → quote_then value more (skip_blanks (quoted k ++ b':' ∷ t)) ≡ value_then more k (value t)
unfolding skip_blanks
after_key value more k t a =
    ap (λ (u : Text). key_then value more (scan none plain u))
      (append_assoc (escape k) (b'"' ∷ []) (b':' ∷ t))
    ∙ ap (key_then value more) (scan-escape k (b':' ∷ t) a)

string_value :
    (s t : Text) (e : Text → Option (Elements × Text)) (m : Text → Option (Members × Text))
    → Ascii s
    → value_body e m (skip_blanks (quoted s ++ t)) ≡ some (str s, t)
unfolding skip_blanks
string_value s t e m a =
    ap (λ (u : Text). as_string (scan none plain u)) (append_assoc (escape s) (b'"' ∷ []) t)
    ∙ ap as_string (scan-escape s t a)

size_pos : (j : Json) → 1 ≤ size j
unfolding size
size_pos null = omega arith
size_pos (bool b) = omega arith
size_pos (number n) = omega arith
size_pos (str s) = omega arith
size_pos (arr js) = omega arith
size_pos (obj ms) = omega arith

-- The steps of the two loops, once the value that stands first is read.
element_step :
    (f : ℕ) (j : Json) (u : Text) (r : Option (Elements × Text))
    → parse_value f (print j ++ u) ≡ some (j, u)
    → after_element (parse_elements f) j (skip_blanks u) ≡ r
    → parse_elements (suc f) (print j ++ u) ≡ r
unfolding parse_value
element_step f j u r v e = ap (element_then (parse_elements f)) v ∙ e

member_step :
    (f : ℕ) (k : Text) (j : Json) (u : Text) (r : Option (Members × Text))
    → Ascii k
    → parse_value f (print j ++ u) ≡ some (j, u)
    → after_member (parse_members f) k j (skip_blanks u) ≡ r
    → parse_members (suc f) (quoted k ++ b':' ∷ (print j ++ u)) ≡ r
unfolding parse_value
member_step f k j u r a v e =
    after_key (parse_value f) (parse_members f) k (print j ++ u) a
    ∙ (ap (value_then (parse_members f) k) v ∙ e)

array_text :
    (f : ℕ) (j : Json) (js : Elements) (t : Text)
    → Plain j
    → parse_elements f (print j ++ (print_elements js ++ t)) ≡ some (element j js, t)
    → parse_value (suc f) (print (arr (element j js)) ++ t) ≡ some (arr (element j js), t)
unfolding print parse_value skip_blanks
array_text f j js t p e =
    ap (λ (u : Text). as_array (array_body (parse_elements f) (skip_blanks u)))
      (append_assoc (print j) (print_elements js) t)
    ∙ (ap as_array (array_body-print (parse_elements f) j (print_elements js ++ t) p)
        ∙ ap as_array e)

object_text :
    (f : ℕ) (k : Text) (j : Json) (ms : Members) (t : Text)
    → parse_members f (quoted k ++ b':' ∷ (print j ++ (print_members ms ++ t)))
      ≡ some (member k j ms, t)
    → parse_value (suc f) (print (obj (member k j ms)) ++ t) ≡ some (obj (member k j ms), t)
unfolding print parse_value skip_blanks
object_text f k j ms t e =
    ap (λ (u : Text). as_object (parse_members f u))
      (append_assoc (quoted k) (b':' ∷ (print j ++ print_members ms)) t
        ∙ ap (λ (u : Text). quoted k ++ b':' ∷ u) (append_assoc (print j) (print_members ms) t))
    ∙ ap as_object e

mutual
  unfolding print parse_value skip_blanks word size Plain

  value_back :
      (j : Json) (fuel : ℕ) (t : Text)
      → Plain j
      → size j ≤ fuel
      → parse_value fuel (print j ++ t) ≡ some (j, t)
  value_back j zero t p h = absurd (omega (arith, size_pos j))
  value_back null (suc f) t p h = refl
  value_back (bool true) (suc f) t p h = refl
  value_back (bool false) (suc f) t p h = refl
  value_back (number n) (suc f) t p h = elim p [ ]
  value_back (str s) (suc f) t p h = string_value s t (parse_elements f) (parse_members f) p
  value_back (arr none_left) (suc f) t p h = refl
  value_back (arr (element j js)) (suc zero) t p h = absurd (omega (arith, size_pos j))
  value_back (arr (element j js)) (suc (suc f)) t p h =
      array_text (suc f) j js t p.0
        (elements_back js j f t (λ u. value_back j f u p.0 (omega arith)) p.1 (omega arith))
  value_back (obj no_member) (suc f) t p h = refl
  value_back (obj (member k j ms)) (suc zero) t p h = absurd (omega (arith, size_pos j))
  value_back (obj (member k j ms)) (suc (suc f)) t p h =
      object_text (suc f) k j ms t
        (members_back ms k j f t p.0 (λ u. value_back j f u p.1 (omega arith)) p.2 (omega arith))

  elements_back :
      (js : Elements) (j : Json) (f : ℕ) (t : Text)
      → ((u : Text) → parse_value f (print j ++ u) ≡ some (j, u))
      → PlainElements js
      → size_elements js ≤ f
      → parse_elements (suc f) (print j ++ (print_elements js ++ t)) ≡ some (element j js, t)
  elements_back none_left j f t v p h =
      element_step f j (print_elements none_left ++ t) _ (v (print_elements none_left ++ t)) refl
  elements_back (element i js) j zero t v p h = absurd (omega arith)
  elements_back (element i js) j (suc f) t v p h =
      element_step (suc f) j (print_elements (element i js) ++ t) _
        (v (print_elements (element i js) ++ t))
        (ap (λ (u : Text). and_elements j (parse_elements (suc f) u))
            (append_assoc (print i) (print_elements js) t)
          ∙ ap (and_elements j)
              (elements_back js i f t (λ u. value_back i f u p.0 (omega arith)) p.1 (omega arith)))

  members_back :
      (ms : Members) (k : Text) (j : Json) (f : ℕ) (t : Text)
      → Ascii k
      → ((u : Text) → parse_value f (print j ++ u) ≡ some (j, u))
      → PlainMembers ms
      → size_members ms ≤ f
      → parse_members (suc f) (quoted k ++ b':' ∷ (print j ++ (print_members ms ++ t)))
        ≡ some (member k j ms, t)
  members_back no_member k j f t a v p h =
      member_step f k j (print_members no_member ++ t) _ a (v (print_members no_member ++ t)) refl
  members_back (member l i ms) k j zero t a v p h = absurd (omega arith)
  members_back (member l i ms) k j (suc f) t a v p h =
      member_step (suc f) k j (print_members (member l i ms) ++ t) _ a
        (v (print_members (member l i ms) ++ t))
        (ap (λ (u : Text). and_members k j (parse_members (suc f) u))
            (append_assoc (quoted l) (b':' ∷ (print i ++ print_members ms)) t
              ∙ ap (λ (u : Text). quoted l ++ b':' ∷ u)
                  (append_assoc (print i) (print_members ms) t))
          ∙ ap (and_members k j) (
              members_back ms l i f t p.0 (λ u. value_back i f u p.1 (omega arith)) p.2
                (omega arith)))

mutual
  unfolding print size Plain

  size-print : (j : Json) → Plain j → size j ≤ length (print j)
  size-print null p = omega arith
  size-print (bool true) p = omega arith
  size-print (bool false) p = omega arith
  size-print (number n) p = elim p [ ]
  size-print (str s) p = omega arith
  size-print (arr none_left) p = omega arith
  size-print (arr (element j js)) p = omega (
    arith,
    size-print j p.0,
    size_elements-print js p.1,
    length-append (print j) (print_elements js),
  )
  size-print (obj no_member) p = omega arith
  size-print (obj (member k j ms)) p = omega (
    arith,
    size-print j p.1,
    size_members-print ms p.2,
    length-append (print j) (print_members ms),
    length-append (quoted k) (b':' ∷ (print j ++ print_members ms)),
  )

  size_elements-print :
      (js : Elements) → PlainElements js → size_elements js + 1 ≤ length (print_elements js)
  size_elements-print none_left p = omega arith
  size_elements-print (element j js) p = omega (
    arith,
    size-print j p.0,
    size_elements-print js p.1,
    length-append (print j) (print_elements js),
  )

  size_members-print :
      (ms : Members) → PlainMembers ms → size_members ms + 1 ≤ length (print_members ms)
  size_members-print no_member p = omega arith
  size_members-print (member k j ms) p = omega (
    arith,
    size-print j p.1,
    size_members-print ms p.2,
    length-append (print j) (print_members ms),
    length-append (quoted k) (b':' ∷ (print j ++ print_members ms)),
  )

pub parse_json-print : (j : Json) → Plain j → parse_json (print j) ≡ some j
unfolding parse_json skip_blanks
parse_json-print j p =
    let fuel = 2 * length (print j) + 2 in
    ap (λ (u : Text). whole_text (parse_value fuel u)) (sym (append-nil (print j)))
    ∙ ap whole_text (value_back j fuel [] p (omega (arith, size-print j p)))
