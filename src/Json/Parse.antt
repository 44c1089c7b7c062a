-- ===== src/Json/Parse.antt =====
-- encoding/json: the parser of Unmarshal, on fuel that the length of the text bounds.
use zstack_ovn_kubernetes.Base.{
  ℕ, zero, suc, ◌+◌, ◌*◌, Bool, true, false, ◌||◌, [], ◌∷◌, Text, codes, Option, none, some,
  if◌then◌else◌, ◌==◌, is_empty, is_digit, length,
}
use zstack_ovn_kubernetes.Json.{
  Json, Elements, Members, null, bool, number, str, arr, obj, none_left, element, no_member, member,
}
use zstack_ovn_kubernetes.Json.Strings.{scan, plain}

abbrev pub is_blank : ℕ → Bool
is_blank c = (c == 32) || (c == 9) || (c == 10) || (c == 13)

unfoldable pub skip_blanks : Text → Text
skip_blanks [] = []
skip_blanks (c ∷ s) = let rest = skip_blanks s in if is_blank c then rest else c ∷ s

-- The rest after a word.
unfoldable pub word : Text → Text → Option Text
word [] s = some s
word (w ∷ ws) [] = none
word (w ∷ ws) (c ∷ s) = let rest = word ws s in if w == c then rest else none

-- Where a number stands: before it, after a minus, a leading zero or other digits, a point, digits after
-- it, an e, its sign, or its digits.
pub data NumberState : Type 0 where
  begin : NumberState
  minus : NumberState
  leading_zero : NumberState
  digits : NumberState
  point : NumberState
  fraction : NumberState
  exponent : NumberState
  exponent_sign : NumberState
  exponent_digits : NumberState

-- Whether the number may end there.
abbrev pub complete : NumberState → Bool
complete leading_zero = true
complete digits = true
complete fraction = true
complete exponent_digits = true
complete s = false

abbrev pub after_integer : ℕ → Option NumberState
after_integer c =
    if c == b'.' then some point else if (c == b'e') || (c == b'E') then some exponent else none

abbrev pub number_step : NumberState → ℕ → Option NumberState
number_step begin c =
    if c == b'-'
    then some minus
    else if c == b'0'
    then some leading_zero
    else if is_digit c
    then some digits
    else none
number_step minus c =
    if c == b'0' then some leading_zero else if is_digit c then some digits else none
number_step leading_zero c = after_integer c
number_step digits c = if is_digit c then some digits else after_integer c
number_step point c = if is_digit c then some fraction else none
number_step fraction c =
    if is_digit c then some fraction else if (c == b'e') || (c == b'E') then some exponent else none
number_step exponent c =
    if (c == b'+') || (c == b'-')
    then some exponent_sign
    else if is_digit c
    then some exponent_digits
    else none
number_step exponent_sign c = if is_digit c then some exponent_digits else none
number_step exponent_digits c = if is_digit c then some exponent_digits else none

abbrev pub prepend_digit : ℕ → Option (Text × Text) → Option (Text × Text)
prepend_digit c none = none
prepend_digit c (some (n, rest)) = some (c ∷ n, rest)

-- The longest number at the head of a text.
unfoldable pub scan_number : NumberState → Text → Option (Text × Text)
scan_number state [] = if complete state then some ([], []) else none
scan_number state (c ∷ s) = elim (number_step state c) [
  | none ↦ if complete state then some ([], c ∷ s) else none
  | some next ↦ prepend_digit c (scan_number next s)
]

abbrev pub as_value : Json → Option Text → Option (Json × Text)
as_value j none = none
as_value j (some rest) = some (j, rest)

abbrev pub as_string : Option (Text × Text) → Option (Json × Text)
as_string none = none
as_string (some (s, rest)) = some (str s, rest)

abbrev pub as_number : Option (Text × Text) → Option (Json × Text)
as_number none = none
as_number (some (n, rest)) = some (number n, rest)

abbrev pub as_array : Option (Elements × Text) → Option (Json × Text)
as_array none = none
as_array (some (js, rest)) = some (arr js, rest)

abbrev pub as_object : Option (Members × Text) → Option (Json × Text)
as_object none = none
as_object (some (ms, rest)) = some (obj ms, rest)

abbrev pub Value : Type 0
Value = Text → Option (Json × Text)

abbrev pub and_elements : Json → Option (Elements × Text) → Option (Elements × Text)
and_elements j none = none
and_elements j (some (js, rest)) = some (element j js, rest)

-- After an element: a comma and more, or the end.
abbrev pub after_element :
    (Text → Option (Elements × Text)) → Json → Text → Option (Elements × Text)
after_element more j [] = none
after_element more j (c ∷ s) =
    if c == b','
    then and_elements j (more s)
    else if c == b']'
    then some (element j none_left, s)
    else none

abbrev pub element_then :
    (Text → Option (Elements × Text)) → Option (Json × Text) → Option (Elements × Text)
element_then more none = none
element_then more (some (j, rest)) = after_element more j (skip_blanks rest)

abbrev pub and_members : Text → Json → Option (Members × Text) → Option (Members × Text)
and_members k j none = none
and_members k j (some (ms, rest)) = some (member k j ms, rest)

abbrev pub after_member :
    (Text → Option (Members × Text)) → Text → Json → Text → Option (Members × Text)
after_member more k j [] = none
after_member more k j (c ∷ s) =
    if c == b','
    then and_members k j (more s)
    else if c == b'}'
    then some (member k j no_member, s)
    else none

abbrev pub value_then :
    (Text → Option (Members × Text)) → Text → Option (Json × Text) → Option (Members × Text)
value_then more k none = none
value_then more k (some (j, rest)) = after_member more k j (skip_blanks rest)

abbrev pub colon_then :
    Value → (Text → Option (Members × Text)) → Text → Text → Option (Members × Text)
colon_then value more k [] = none
colon_then value more k (c ∷ s) = if c == b':' then value_then more k (value s) else none

abbrev pub key_then :
    Value → (Text → Option (Members × Text)) → Option (Text × Text) → Option (Members × Text)
key_then value more none = none
key_then value more (some (k, rest)) = colon_then value more k (skip_blanks rest)

abbrev pub quote_then : Value → (Text → Option (Members × Text)) → Text → Option (Members × Text)
quote_then value more [] = none
quote_then value more (c ∷ s) = if c == b'"' then key_then value more (scan none plain s) else none

-- What follows "[" or "{".
abbrev pub array_body : (Text → Option (Elements × Text)) → Text → Option (Elements × Text)
array_body more [] = none
array_body more (c ∷ s) = if c == b']' then some (none_left, s) else more (c ∷ s)

abbrev pub object_body : (Text → Option (Members × Text)) → Text → Option (Members × Text)
object_body more [] = none
object_body more (c ∷ s) = if c == b'}' then some (no_member, s) else more (c ∷ s)

abbrev pub value_body : (Text → Option (Elements × Text)) → (Text → Option (Members × Text)) → Value
value_body elements members [] = none
value_body elements members (c ∷ s) =
    if c == b'"'
    then as_string (scan none plain s)
    else if c == b'['
    then as_array (array_body elements (skip_blanks s))
    else if c == b'{'
    then as_object (object_body members (skip_blanks s))
    else if c == b'n'
    then as_value null (word (codes "ull") s)
    else if c == b't'
    then as_value (bool true) (word (codes "rue") s)
    else if c == b'f'
    then as_value (bool false) (word (codes "alse") s)
    else as_number (scan_number begin (c ∷ s))

unfoldable mutual
  unfolding scan skip_blanks word scan_number

  pub parse_value : ℕ → Value
  parse_value zero s = none
  parse_value (suc fuel) s = value_body (parse_elements fuel) (parse_members fuel) (skip_blanks s)

  -- One element at least, and the closing bracket.
  pub parse_elements : ℕ → Text → Option (Elements × Text)
  parse_elements zero s = none
  parse_elements (suc fuel) s = element_then (parse_elements fuel) (parse_value fuel s)

  pub parse_members : ℕ → Text → Option (Members × Text)
  parse_members zero s = none
  parse_members (suc fuel) s = quote_then (parse_value fuel) (parse_members fuel) (skip_blanks s)

abbrev pub whole_text : Option (Json × Text) → Option Json
whole_text none = none
whole_text (some (j, rest)) = if is_empty (skip_blanks rest) then some j else none

-- Every call but the first of an element follows a byte that was read, so twice the length is enough.
unfoldable pub parse_json : Text → Option Json
unfolding parse_value
parse_json s = whole_text (parse_value (2 * length s + 2) s)
