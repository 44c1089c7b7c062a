-- ===== src/Json.antt =====
-- Go's encoding/json as pkg/util/annotation.go uses it: values, Marshal's text of them, and the parser of
-- Unmarshal. Texts are ASCII, or UTF-8 without U+2028 and U+2029, which Marshal writes as escapes.
pub mod Parse
pub mod Strings
pub mod Roundtrip
pub mod Indent
use zstack_ovn_kubernetes.Base.{
  ℕ, ◌+◌, ◌/◌, ◌%◌, Bool, true, false, ◌||◌, List, [], ◌∷◌, ◌++◌, Text, codes, if◌then◌else◌, ltb,
  ◌==◌,
}

mutual
  pub data Json : Type 0 where
    null : Json
    bool : Bool → Json
    number : Text → Json
    str : Text → Json
    arr : Elements → Json
    obj : Members → Json

  pub data Elements : Type 0 where
    none_left : Elements
    element : Json → Elements → Elements

  pub data Members : Type 0 where
    no_member : Members
    member : Text → Json → Members → Members

abbrev pub hex_digit : ℕ → ℕ
hex_digit n = if ltb n 10 then b'0' + n else 87 + n

-- What Marshal writes for one byte of a string.
abbrev pub escape_byte : ℕ → Text
escape_byte c =
    if (c == b'"') || (c == 92)
    then 92 ∷ c ∷ []
    else if c == 10
    then codes "\\n"
    else if c == 13
    then codes "\\r"
    else if c == 9
    then codes "\\t"
    else if ltb c 32 || (c == b'<') || (c == b'>') || (c == b'&')
    then codes "\\u00" ++ hex_digit (c / 16) ∷ hex_digit (c % 16) ∷ []
    else c ∷ []

unfoldable pub escape : Text → Text
escape [] = []
escape (c ∷ s) = escape_byte c ++ escape s

abbrev pub quoted : Text → Text
quoted s = b'"' ∷ (escape s ++ b'"' ∷ [])

unfoldable mutual
  unfolding escape

  pub print : Json → Text
  print null = codes "null"
  print (bool true) = codes "true"
  print (bool false) = codes "false"
  print (number n) = n
  print (str s) = quoted s
  print (arr none_left) = codes "[]"
  print (arr (element j js)) = b'[' ∷ (print j ++ print_elements js)
  print (obj no_member) = codes "{}"
  print (obj (member k j ms)) = b'{' ∷ (quoted k ++ b':' ∷ (print j ++ print_members ms))

  -- The rest of an array or an object, with its closing bracket.
  pub print_elements : Elements → Text
  print_elements none_left = codes "]"
  print_elements (element j js) = b',' ∷ (print j ++ print_elements js)

  pub print_members : Members → Text
  print_members no_member = codes "}"
  print_members (member k j ms) = b',' ∷ (quoted k ++ b':' ∷ (print j ++ print_members ms))
