-- ===== src/Ovndb/PortName.antt =====
-- pkg/ovndb/logical_switch_port.go: the names and the address text of logical switch ports.
use zstack_ovn_kubernetes.Base.{
  ◌≡◌, refl, false, List, [], ◌∷◌, ◌++◌, Text, Option, none, some, if◌then◌else◌, contains_byte,
  join, ℕ, ◌==◌, arith,
}

-- BuildPortName: "%s_%s".
unfoldable pub build_port_name : Text → Text → Text
build_port_name namespace pod = namespace ++ (b'_' ∷ pod)

abbrev before_rest : ℕ → Option (Text × Text) → Option (Text × Text)
before_rest c none = none
before_rest c (some (a, b)) = some (c ∷ a, b)

-- strings.SplitN(name, "_", 2), with none where there is only one part, and so ParsePortName's error.
unfoldable pub parse_port_name : Text → Option (Text × Text)
parse_port_name [] = none
parse_port_name (c ∷ s) =
    let rest = parse_port_name s in if c == b'_' then some ([], s) else before_rest c rest

-- buildAddresses.
unfoldable pub build_addresses : Text → List Text → Text
build_addresses [] ips = []
build_addresses (c ∷ mac) [] = c ∷ mac
build_addresses (c ∷ mac) (ip ∷ ips) = (c ∷ mac) ++ (b' ' ∷ join (ip ∷ ips) (b' ' ∷ []))

-- ParsePortName gives back the namespace and the pod that BuildPortName was given, for a namespace
-- without an underscore.
parse_port_name-build_port_name :
    (namespace pod : Text)
    → contains_byte b'_' namespace ≡ false
    → parse_port_name (build_port_name namespace pod) ≡ some (namespace, pod)
unfolding parse_port_name build_port_name contains_byte
parse_port_name-build_port_name [] pod h = refl
parse_port_name-build_port_name (c ∷ namespace) pod h =
    let other : (c == b'_') ≡ false = ground arith in
    let later : parse_port_name (namespace ++ (b'_' ∷ pod)) ≡ some (namespace, pod) =
      parse_port_name-build_port_name namespace pod (ground arith) in
    rw (other, later) refl
