-- ===== src/Config.antt =====
-- pkg/config/config.go: the configuration and its defaults.
mod Env
mod Validate
mod Valid
mod Reported
mod Accepted
mod Load
mod Address
mod Addresses
pub mod External
mod CniFile
mod Priority
mod Cni
mod CniRoundtrip
mod Examples
use zstack_ovn_kubernetes.Base.{ℕ, ◌*◌, ◌^◌, Bool, true, false, [], Text, codes, ℤ, pos}

pub record SslConfig : Type 0 where
  pub enabled : Bool
  pub ca_cert : Text
  pub client_cert : Text
  pub client_key : Text

-- Durations in nanoseconds.
pub record OvnConfig : Type 0 where
  pub mode : Text
  pub nbdb_address : Text
  pub sbdb_address : Text
  pub ssl : SslConfig
  pub connect_timeout : ℤ
  pub reconnect_interval : ℤ
  pub max_reconnect_interval : ℤ

pub record KubernetesConfig : Type 0 where
  pub kubeconfig : Text
  pub api_server : Text
  pub service_account : Text

pub record NetworkConfig : Type 0 where
  pub cluster_cidr : Text
  pub service_cidr : Text
  pub node_subnet_size : ℤ
  pub mtu : ℤ

pub record GatewayConfig : Type 0 where
  pub mode : Text
  pub interface : Text
  pub next_hop : Text
  pub vlan_id : ℤ

pub record TunnelConfig : Type 0 where
  pub type : Text
  pub port : ℤ
  pub encap_ip : Text

pub record DpdkConfig : Type 0 where
  pub enabled : Bool
  pub socket_dir : Text
  pub socket_mode : Text
  pub queues : ℤ
  pub min_hugepages_mb : ℤ

pub record LoggingConfig : Type 0 where
  pub level : Text
  pub format : Text
  pub file : Text

pub record Config : Type 0 where
  pub ovn : OvnConfig
  pub kubernetes : KubernetesConfig
  pub network : NetworkConfig
  pub gateway : GatewayConfig
  pub tunnel : TunnelConfig
  pub dpdk : DpdkConfig
  pub logging : LoggingConfig

abbrev second : ℕ
second = 1000000000

abbrev pub default_config : Config
default_config = record {
  ovn = record {
    mode = codes "standalone";
    nbdb_address = [];
    sbdb_address = [];
    ssl = record { enabled = false; ca_cert = []; client_cert = []; client_key = [] };
    connect_timeout = pos (30 * second);
    reconnect_interval = pos (1 * second);
    max_reconnect_interval = pos (60 * second);
  };
  kubernetes = record {
    kubeconfig = [];
    api_server = [];
    service_account = codes "zstack-ovn-kubernetes";
  };
  network = record {
    cluster_cidr = codes "10.244.0.0/16";
    service_cidr = codes "10.96.0.0/16";
    node_subnet_size = pos 24;
    mtu = pos 1400;
  };
  gateway = record { mode = codes "local"; interface = []; next_hop = []; vlan_id = pos 0 };
  tunnel = record { type = codes "vxlan"; port = pos 4789; encap_ip = [] };
  dpdk = record {
    enabled = false;
    socket_dir = codes "/var/run/openvswitch";
    socket_mode = codes "client";
    queues = pos 1;
    min_hugepages_mb = pos 1024;
  };
  logging = record { level = codes "info"; format = codes "json"; file = [] };
}
