-- ===== src/Config/Validate.antt =====
-- pkg/config/config.go: Validate, and the problems that it reports.
use zstack_ovn_kubernetes.Base.{
  Bool, false, not, ◌&&◌, ◌||◌, List, [], ◌∷◌, ◌++◌, map, Text, codes, Option, none, some, ℤ, pos,
  negsuc, if◌then◌else◌, is_empty, text_eq, leb, join, decimal_int,
}
use zstack_ovn_kubernetes.Config.{
  Config, OvnConfig, SslConfig, NetworkConfig, DpdkConfig, LoggingConfig,
}

-- One constructor for each message that Validate may append.
pub data Problem : Type 0 where
  invalid_mode : Text → Problem
  nbdb_required : Problem
  sbdb_required : Problem
  ca_cert_required : Problem
  client_cert_required : Problem
  client_key_required : Problem
  cluster_cidr_required : Problem
  service_cidr_required : Problem
  invalid_node_subnet_size : ℤ → Problem
  invalid_gateway_mode : Text → Problem
  invalid_tunnel_type : Text → Problem
  invalid_log_level : Text → Problem
  invalid_log_format : Text → Problem
  invalid_socket_mode : Text → Problem
  invalid_queues : ℤ → Problem
  socket_dir_required : Problem

-- An "invalid ...: %s (must be ...)" message.
abbrev invalid : Text → Text → Text → Text
invalid what value must =
    codes "invalid "
    ++ (what ++ (codes ": " ++ (value ++ (codes " (must be " ++ (must ++ codes ")")))))

unfoldable pub message : Problem → Text
message (invalid_mode m) = invalid (codes "OVN mode") m (codes "'standalone' or 'external'")
message nbdb_required = codes "nbdbAddress is required for external mode"
message sbdb_required = codes "sbdbAddress is required for external mode"
message ca_cert_required = codes "SSL CA certificate path is required when SSL is enabled"
message client_cert_required = codes "SSL client certificate path is required when SSL is enabled"
message client_key_required = codes "SSL client key path is required when SSL is enabled"
message cluster_cidr_required = codes "clusterCIDR is required"
message service_cidr_required = codes "serviceCIDR is required"
message (invalid_node_subnet_size n) =
    invalid (codes "nodeSubnetSize") (decimal_int n) (codes "between 16 and 30")
message (invalid_gateway_mode m) = invalid (codes "gateway mode") m (codes "'shared' or 'local'")
message (invalid_tunnel_type t) = invalid (codes "tunnel type") t (codes "'vxlan' or 'geneve'")
message (invalid_log_level l) =
    invalid (codes "log level") l (codes "'debug', 'info', 'warn', or 'error'")
message (invalid_log_format f) = invalid (codes "log format") f (codes "'json' or 'text'")
message (invalid_socket_mode m) =
    invalid (codes "DPDK socket mode") m (codes "'client' or 'server'")
message (invalid_queues n) = invalid (codes "DPDK queues") (decimal_int n) (codes ">= 1")
message socket_dir_required = codes "DPDK socket directory is required when DPDK is enabled"

-- if test { errors = append(errors, problem) }.
abbrev pub when : Bool → Problem → List Problem
when test problem = if test then problem ∷ [] else []

abbrev pub one_of : Text → Text → Text → Bool
one_of a b s = text_eq s a || text_eq s b

-- !(n < low || n > high) at the bounds of Validate.
abbrev pub size_in_range : ℤ → Bool
size_in_range (pos n) = leb 16 n && leb n 30
size_in_range (negsuc n) = false

abbrev pub at_least_one : ℤ → Bool
at_least_one (pos n) = leb 1 n
at_least_one (negsuc n) = false

abbrev pub external_problems : OvnConfig → List Problem
external_problems c =
    if text_eq c.mode (codes "external")
    then when (is_empty c.nbdb_address) nbdb_required
      ++ when (is_empty c.sbdb_address) sbdb_required
    else []

abbrev pub ssl_problems : SslConfig → List Problem
ssl_problems c =
    if c.enabled
    then when (is_empty c.ca_cert) ca_cert_required
      ++ (when (is_empty c.client_cert) client_cert_required
          ++ when (is_empty c.client_key) client_key_required)
    else []

abbrev pub network_problems : NetworkConfig → List Problem
network_problems c =
    when (is_empty c.cluster_cidr) cluster_cidr_required
    ++ (when (is_empty c.service_cidr) service_cidr_required
        ++ when (not (size_in_range c.node_subnet_size))
            (invalid_node_subnet_size c.node_subnet_size))

unfoldable pub valid_log_level : Text → Bool
valid_log_level l =
    one_of (codes "debug") (codes "info") l || one_of (codes "warn") (codes "error") l

abbrev pub logging_problems : LoggingConfig → List Problem
logging_problems c =
    when (not (valid_log_level c.level)) (invalid_log_level c.level)
    ++ when (not (one_of (codes "json") (codes "text") c.format)) (invalid_log_format c.format)

abbrev pub dpdk_problems : DpdkConfig → List Problem
dpdk_problems c =
    if c.enabled
    then when (not (one_of (codes "client") (codes "server") c.socket_mode))
        (invalid_socket_mode c.socket_mode)
      ++ (when (not (at_least_one c.queues)) (invalid_queues c.queues)
          ++ when (is_empty c.socket_dir) socket_dir_required)
    else []

-- The variable `errors` at the end of Validate.
unfoldable pub problems : Config → List Problem
problems c =
    when (not (one_of (codes "standalone") (codes "external") c.ovn.mode)) (invalid_mode c.ovn.mode)
    ++ (external_problems c.ovn
        ++ (ssl_problems c.ovn.ssl
            ++ (network_problems c.network
                ++ (when (not (one_of (codes "shared") (codes "local") c.gateway.mode))
                      (invalid_gateway_mode c.gateway.mode)
                    ++ (when (not (one_of (codes "vxlan") (codes "geneve") c.tunnel.type))
                          (invalid_tunnel_type c.tunnel.type)
                        ++ (logging_problems c.logging ++ dpdk_problems c.dpdk))))))

abbrev pub report : List Problem → Option Text
report [] = none
report (p ∷ ps) =
    some (codes "configuration errors:\n  - " ++ join (map message (p ∷ ps)) (codes "\n  - "))

-- Validate returns nil, or an error with this text.
unfoldable pub validate : Config → Option Text
unfolding problems message
validate c = report (problems c)
