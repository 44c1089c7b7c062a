-- ===== src/Config/External.antt =====
-- pkg/config/config.go: the deployment modes, their database addresses, and what external mode demands
-- beyond Validate.
use zstack_ovn_kubernetes.Base.{
  ◌≡◌, ◌≢◌, refl, ap, ◌⊎◌, inl, inr, Bool, true, false, List, [], ◌∷◌, ◌++◌, map, Text, codes,
  Option, none, some, ℤ, if◌then◌else◌, text_eq, text_eq_iff, join,
}
use zstack_ovn_kubernetes.Config.{Config, SslConfig}
use zstack_ovn_kubernetes.Config.Accepted.{Valid}
use zstack_ovn_kubernetes.Config.Address.{AddressError, address_message, validate_db_address_format}

unfoldable pub is_standalone_mode : Config → Bool
is_standalone_mode c = text_eq c.ovn.mode (codes "standalone")

unfoldable pub is_external_mode : Config → Bool
is_external_mode c = text_eq c.ovn.mode (codes "external")

unfoldable pub get_nbdb_address : Config → Text
unfolding is_standalone_mode
get_nbdb_address c =
    if is_standalone_mode c then codes "unix:/var/run/ovn/ovnnb_db.sock" else c.ovn.nbdb_address

unfoldable pub get_sbdb_address : Config → Text
unfolding is_standalone_mode
get_sbdb_address c =
    if is_standalone_mode c then codes "unix:/var/run/ovn/ovnsb_db.sock" else c.ovn.sbdb_address

unfoldable pub should_start_local_ovn : Config → Bool
unfolding is_standalone_mode
should_start_local_ovn c = is_standalone_mode c

pub record ExternalDbConfig : Type 0 where
  pub nbdb_address : Text
  pub sbdb_address : Text
  pub ssl_enabled : Bool
  pub ca_cert : Text
  pub client_cert : Text
  pub client_key : Text
  pub connect_timeout : ℤ
  pub reconnect_interval : ℤ
  pub max_reconnect_interval : ℤ

abbrev pub external_db_config : Config → ExternalDbConfig
external_db_config c = record {
  nbdb_address = c.ovn.nbdb_address;
  sbdb_address = c.ovn.sbdb_address;
  ssl_enabled = c.ovn.ssl.enabled;
  ca_cert = c.ovn.ssl.ca_cert;
  client_cert = c.ovn.ssl.client_cert;
  client_key = c.ovn.ssl.client_key;
  connect_timeout = c.ovn.connect_timeout;
  reconnect_interval = c.ovn.reconnect_interval;
  max_reconnect_interval = c.ovn.max_reconnect_interval;
}

-- `none` is nil.
unfoldable pub get_external_db_config : Config → Option ExternalDbConfig
unfolding is_external_mode
get_external_db_config c = if is_external_mode c then some (external_db_config c) else none

pub data ExternalProblem : Type 0 where
  invalid_nbdb_address : AddressError → ExternalProblem
  invalid_sbdb_address : AddressError → ExternalProblem
  ca_cert_not_found : Text → ExternalProblem
  client_cert_not_found : Text → ExternalProblem
  client_key_not_found : Text → ExternalProblem

unfoldable pub external_message : ExternalProblem → Text
unfolding address_message
external_message (invalid_nbdb_address e) = codes "invalid NBDBAddress: " ++ address_message e
external_message (invalid_sbdb_address e) = codes "invalid SBDBAddress: " ++ address_message e
external_message (ca_cert_not_found path) = codes "SSL CA certificate not found: " ++ path
external_message (client_cert_not_found path) = codes "SSL client certificate not found: " ++ path
external_message (client_key_not_found path) = codes "SSL client key not found: " ++ path

abbrev pub address_problem :
    (AddressError → ExternalProblem) → Option AddressError → List ExternalProblem
address_problem problem none = []
address_problem problem (some e) = problem e ∷ []

abbrev pub report_external : List ExternalProblem → Option Text
report_external [] = none
report_external (p ∷ ps) = some (
    codes "external mode configuration errors:\n  - "
    ++ join (map external_message (p ∷ ps)) (codes "\n  - "))

-- os.Stat fails with an error that os.IsNotExist recognises.
module _ (not_found : Text → Bool) where
  abbrev pub file_problem : (Text → ExternalProblem) → Text → List ExternalProblem
  file_problem problem path = if not_found path then problem path ∷ [] else []

  abbrev pub certificate_problems : SslConfig → List ExternalProblem
  certificate_problems c =
      if c.enabled
      then file_problem ca_cert_not_found c.ca_cert
        ++ (file_problem client_cert_not_found c.client_cert
            ++ file_problem client_key_not_found c.client_key)
      else []

  unfoldable pub validate_external_mode_config : Config → Option Text
  unfolding is_external_mode validate_db_address_format external_message
  validate_external_mode_config c =
      if is_external_mode c
      then report_external (
          address_problem invalid_nbdb_address (validate_db_address_format c.ovn.nbdb_address)
          ++ (address_problem invalid_sbdb_address (validate_db_address_format c.ovn.sbdb_address)
              ++ certificate_problems c.ovn.ssl))
      else none

-- A local OVN is started, with the sockets as addresses and no external connection.
abbrev pub Local : Config → Type 0
Local c =
    (should_start_local_ovn c ≡ true)
    × (get_nbdb_address c ≡ codes "unix:/var/run/ovn/ovnnb_db.sock")
    × (get_sbdb_address c ≡ codes "unix:/var/run/ovn/ovnsb_db.sock")
    × (get_external_db_config c ≡ none)

-- No local OVN is started, and the connection has the addresses that the program reports, none empty.
abbrev pub Remote : Config → Type 0
Remote c =
    (should_start_local_ovn c ≡ false)
    × (d : ExternalDbConfig) × (get_external_db_config c ≡ some d)
    × (get_nbdb_address c ≡ d.nbdb_address)
    × (get_sbdb_address c ≡ d.sbdb_address)
    × (d.nbdb_address ≢ [])
    × (d.sbdb_address ≢ [])

-- A valid configuration either starts a local OVN, reached by its sockets and with no external
-- connection, or starts none and connects to two databases with the addresses that it names.
pub Valid-deployed : (c : Config) → Valid c → Local c ⊎ Remote c
unfolding get_nbdb_address get_sbdb_address should_start_local_ovn get_external_db_config
    is_standalone_mode is_external_mode text_eq
Valid-deployed c v = by_mode v.mode
  where
    by_mode :
        (c.ovn.mode ≡ codes "standalone") ⊎ (c.ovn.mode ≡ codes "external") → Local c ⊎ Remote c
    by_mode (inl e) =
        let s : text_eq c.ovn.mode (codes "standalone") ≡ true = (text_eq_iff _ _).1 e in
        let x : text_eq c.ovn.mode (codes "external") ≡ false =
          ap (λ (m : Text). text_eq m (codes "external")) e in
        inl (s, rw s refl, rw s refl, rw x refl)
    by_mode (inr e) =
        let s : text_eq c.ovn.mode (codes "standalone") ≡ false =
          ap (λ (m : Text). text_eq m (codes "standalone")) e in
        let x : text_eq c.ovn.mode (codes "external") ≡ true = (text_eq_iff _ _).1 e in
        inr (
          s,
          external_db_config c,
          rw x refl,
          rw s refl,
          rw s refl,
          (v.external e).0,
          (v.external e).1,
        )
