-- ===== src/Config/Env.antt =====
-- pkg/config/config.go: ApplyEnvOverrides. `env` is os.Getenv, which returns "" for an unset variable.
use zstack_ovn_kubernetes.Base.{
  zero, suc, Bool, Text, codes, Option, none, some, ℤ, pos, negsuc, if◌then◌else◌, is_empty,
  text_eq, to_lower, parse_int,
}
use zstack_ovn_kubernetes.Config.{
  Config, OvnConfig, SslConfig, NetworkConfig, GatewayConfig, TunnelConfig, DpdkConfig,
  LoggingConfig,
}

abbrev pub Getenv : Type 0
Getenv = Text → Text

unfoldable pub override : Text → Text → Text
override v old = if is_empty v then old else v

-- strings.ToLower(v) == "true".
unfoldable pub override_flag : Text → Bool → Bool
override_flag v old = if is_empty v then old else text_eq (to_lower v) (codes "true")

-- A number that is read and positive.
abbrev pub positive_or : Option ℤ → ℤ → ℤ
positive_or none old = old
positive_or (some (pos zero)) old = old
positive_or (some (pos (suc n))) old = pos (suc n)
positive_or (some (negsuc n)) old = old

unfoldable pub override_int : Text → ℤ → ℤ
override_int v old = if is_empty v then old else positive_or (parse_int v) old

module _ (env : Getenv) where
  abbrev pub ssl_overrides : SslConfig → SslConfig
  ssl_overrides c = record {
    enabled = override_flag (env (codes "ZSTACK_OVN_SSL_ENABLED")) c.enabled;
    ca_cert = override (env (codes "ZSTACK_OVN_SSL_CA_CERT")) c.ca_cert;
    client_cert = override (env (codes "ZSTACK_OVN_SSL_CLIENT_CERT")) c.client_cert;
    client_key = override (env (codes "ZSTACK_OVN_SSL_CLIENT_KEY")) c.client_key;
  }

  abbrev pub ovn_overrides : OvnConfig → OvnConfig
  ovn_overrides c = record c {
    mode = override (env (codes "ZSTACK_OVN_MODE")) c.mode;
    nbdb_address = override (env (codes "ZSTACK_OVN_NBDB_ADDRESS")) c.nbdb_address;
    sbdb_address = override (env (codes "ZSTACK_OVN_SBDB_ADDRESS")) c.sbdb_address;
    ssl = ssl_overrides c.ssl;
  }

  abbrev pub network_overrides : NetworkConfig → NetworkConfig
  network_overrides c = record c {
    cluster_cidr = override (env (codes "ZSTACK_OVN_CLUSTER_CIDR")) c.cluster_cidr;
    service_cidr = override (env (codes "ZSTACK_OVN_SERVICE_CIDR")) c.service_cidr;
  }

  abbrev pub gateway_overrides : GatewayConfig → GatewayConfig
  gateway_overrides c = record c {
    mode = override (env (codes "ZSTACK_OVN_GATEWAY_MODE")) c.mode;
    interface = override (env (codes "ZSTACK_OVN_GATEWAY_INTERFACE")) c.interface;
  }

  abbrev pub tunnel_overrides : TunnelConfig → TunnelConfig
  tunnel_overrides c = record c { type = override (env (codes "ZSTACK_OVN_TUNNEL_TYPE")) c.type }

  abbrev pub dpdk_overrides : DpdkConfig → DpdkConfig
  dpdk_overrides c = record {
    enabled = override_flag (env (codes "ZSTACK_OVN_DPDK_ENABLED")) c.enabled;
    socket_dir = override (env (codes "ZSTACK_OVN_DPDK_SOCKET_DIR")) c.socket_dir;
    socket_mode = override (env (codes "ZSTACK_OVN_DPDK_SOCKET_MODE")) c.socket_mode;
    queues = override_int (env (codes "ZSTACK_OVN_DPDK_QUEUES")) c.queues;
    min_hugepages_mb =
        override_int (env (codes "ZSTACK_OVN_DPDK_MIN_HUGEPAGES_MB")) c.min_hugepages_mb;
  }

  abbrev pub logging_overrides : LoggingConfig → LoggingConfig
  logging_overrides c = record c {
    level = override (env (codes "ZSTACK_OVN_LOG_LEVEL")) c.level;
    format = override (env (codes "ZSTACK_OVN_LOG_FORMAT")) c.format;
  }

  unfoldable pub apply_env_overrides : Config → Config
  apply_env_overrides c = record c {
    ovn = ovn_overrides c.ovn;
    network = network_overrides c.network;
    gateway = gateway_overrides c.gateway;
    tunnel = tunnel_overrides c.tunnel;
    dpdk = dpdk_overrides c.dpdk;
    logging = logging_overrides c.logging;
  }
