-- ===== src/Json/Indent.antt =====
-- encoding/json: MarshalIndent(v, "", "  "): each element and member on a line of its own, two spaces
-- deeper than what holds it.
use zstack_ovn_kubernetes.Base.{ℕ, zero, suc, [], ◌∷◌, ◌++◌, Text, codes}
use zstack_ovn_kubernetes.Json.{
  Json, Elements, Members, null, bool, number, str, arr, obj, none_left, element, no_member, member,
  print, quoted,
}

-- A line break and the indent.
unfoldable pub new_line : ℕ → Text
new_line zero = 10 ∷ []
new_line (suc n) = new_line n ++ codes "  "

unfoldable mutual
  unfolding print new_line

  pub print_indent : ℕ → Json → Text
  print_indent depth null = print null
  print_indent depth (bool b) = print (bool b)
  print_indent depth (number n) = print (number n)
  print_indent depth (str s) = print (str s)
  print_indent depth (arr none_left) = codes "[]"
  print_indent depth (arr (element j js)) =
      b'[' ∷ (new_line (suc depth) ++ (print_indent (suc depth) j ++ indent_elements depth js))
  print_indent depth (obj no_member) = codes "{}"
  print_indent depth (obj (member k j ms)) =
      b'{'
      ∷ (new_line (suc depth)
          ++ (quoted k ++ (codes ": " ++ (print_indent (suc depth) j ++ indent_members depth ms))))

  pub indent_elements : ℕ → Elements → Text
  indent_elements depth none_left = new_line depth ++ codes "]"
  indent_elements depth (element j js) =
      b',' ∷ (new_line (suc depth) ++ (print_indent (suc depth) j ++ indent_elements depth js))

  pub indent_members : ℕ → Members → Text
  indent_members depth no_member = new_line depth ++ codes "}"
  indent_members depth (member k j ms) =
      b','
      ∷ (new_line (suc depth)
          ++ (quoted k ++ (codes ": " ++ (print_indent (suc depth) j ++ indent_members depth ms))))
