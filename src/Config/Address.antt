-- ===== src/Config/Address.antt =====
-- pkg/config/config.go: validateDBAddressFormat.
use zstack_ovn_kubernetes.Base.{
  not, ◌&&◌, ◌||◌, List, [], ◌∷◌, ◌++◌, Text, codes, Option, none, some, if◌then◌else◌, is_empty,
  has_prefix, contains_byte, trim_space, split, drop, length,
}

pub data AddressError : Type 0 where
  empty_address : AddressError
  invalid_scheme : Text → AddressError
  invalid_format : Text → AddressError

unfoldable pub address_message : AddressError → Text
address_message empty_address = codes "address is empty"
address_message (invalid_scheme a) =
    codes "invalid address scheme: " ++ (a ++ codes " (must be tcp:, ssl:, or unix:)")
address_message (invalid_format a) =
    codes "invalid address format: " ++ (a ++ codes " (expected IP:PORT)")

-- strings.TrimPrefix.
unfoldable pub trim_prefix : Text → Text → Text
trim_prefix s p = if has_prefix s p then drop (length p) s else s

abbrev pub tcp : Text
tcp = codes "tcp:"

abbrev pub ssl : Text
ssl = codes "ssl:"

abbrev pub unix : Text
unix = codes "unix:"

-- The body of the loop for an address that is trimmed and not empty.
unfoldable pub check_address : Text → Option AddressError
unfolding trim_prefix
check_address a =
    if not (has_prefix a tcp) && (not (has_prefix a ssl) && not (has_prefix a unix))
    then some (invalid_scheme a)
    else if has_prefix a tcp || has_prefix a ssl
    then if contains_byte b':' (trim_prefix (trim_prefix a tcp) ssl)
      then none
      else some (invalid_format a)
    else none

abbrev pub check_part : Text → Option AddressError
check_part a = if is_empty a then none else check_address a

-- The loop over the parts: the first error is returned.
unfoldable pub check_parts : List Text → Option AddressError
unfolding check_address
check_parts [] = none
check_parts (p ∷ ps) =
    let rest = check_parts ps in elim (check_part (trim_space p)) [ none ↦ rest | some e ↦ some e ]

unfoldable pub validate_db_address_format : Text → Option AddressError
unfolding check_parts
validate_db_address_format a = if is_empty a then some empty_address else check_parts (split a b',')
