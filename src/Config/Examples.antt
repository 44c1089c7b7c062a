-- ===== src/Config/Examples.antt =====
-- pkg/config: the theorems at concrete configurations, and tests.
use zstack_ovn_kubernetes.Base.{
  ◌≡◌, ◌≢◌, refl, ◌↔◌, ◌⊎◌, true, [], ◌∷◌, Text, codes, none, some, pos, negsuc, if◌then◌else◌,
  text_eq, trim_space, split, contains_byte, arith, All, parse_int,
}
use mathlib.Core.List.{Mem}
use zstack_ovn_kubernetes.Base.{has_prefix}
use zstack_ovn_kubernetes.Config.{Config, default_config}
use zstack_ovn_kubernetes.Config.Env.{
  Getenv, override, override_flag, override_int, apply_env_overrides,
}
use zstack_ovn_kubernetes.Config.Validate.{
  Problem, invalid_mode, invalid_node_subnet_size, invalid_queues, problems, valid_log_level,
  validate,
}
use zstack_ovn_kubernetes.Config.Valid.{Violated}
use zstack_ovn_kubernetes.Config.Reported.{problems-Violated}
use zstack_ovn_kubernetes.Config.Accepted.{Valid, validate-Valid}
use zstack_ovn_kubernetes.Config.Load.{Files, Started, loaded, load_config, load_config-Valid}
use zstack_ovn_kubernetes.Config.Priority.{PositiveInt64, apply_env_overrides-PositiveInt64}
use zstack_ovn_kubernetes.Config.External.{Local, Remote, Valid-deployed}
use zstack_ovn_kubernetes.Config.Address.{
  validate_db_address_format, check_parts, check_address, trim_prefix, invalid_format,
}
use zstack_ovn_kubernetes.Config.Addresses.{AddressPart, validate_db_address_format-AddressPart}
use zstack_ovn_kubernetes.Config.Cni.{CniArgs, parsed, parse_cni_args}
use zstack_ovn_kubernetes.Config.CniRoundtrip.{cni_args_text, parse_cni_args-cni_args_text}

-- The defaults with three values that Validate refuses.
abbrev broken : Config
broken = record default_config {
  ovn = record default_config.ovn { mode = codes "auto" };
  network = record default_config.network { node_subnet_size = pos 31 };
  dpdk = record default_config.dpdk { enabled = true; queues = negsuc 0 };
}

problems-broken :
    problems broken
    ≡ invalid_mode (codes "auto")
      ∷ invalid_node_subnet_size (pos 31)
      ∷ invalid_queues (negsuc 0)
      ∷ []
unfolding problems text_eq valid_log_level
problems-broken = refl

problems-Violated_example :
    All (Violated broken) (problems broken)
    × ((p : Problem) → Violated broken p → Mem p (problems broken))
problems-Violated_example = problems-Violated broken

default_accepted : validate default_config ≡ none
unfolding validate problems text_eq valid_log_level
default_accepted = refl

-- An external deployment by the environment: one file, with nothing in it.
abbrev external_env : Getenv
external_env k =
    if text_eq k (codes "ZSTACK_OVN_CONFIG_FILE")
    then codes "/etc/ovn.yaml"
    else if text_eq k (codes "ZSTACK_OVN_MODE")
    then codes "external"
    else if text_eq k (codes "ZSTACK_OVN_NBDB_ADDRESS")
    then codes "tcp:10.0.0.1:6641"
    else if text_eq k (codes "ZSTACK_OVN_SBDB_ADDRESS")
    then codes "tcp:10.0.0.1:6642"
    else if text_eq k (codes "ZSTACK_OVN_DPDK_QUEUES")
    then codes "-4"
    else []

abbrev empty_files : Files
empty_files = record { read_file = λ path. some []; unmarshal = λ text c. some c }

abbrev external_config : Config
external_config = record default_config {
  ovn = record default_config.ovn {
    mode = codes "external";
    nbdb_address = codes "tcp:10.0.0.1:6641";
    sbdb_address = codes "tcp:10.0.0.1:6642";
  };
}

external_loaded : load_config empty_files external_env ≡ loaded external_config
unfolding load_config apply_env_overrides override override_flag override_int text_eq validate
    problems valid_log_level parse_int
external_loaded = refl

load_config-Valid_example : (load_config empty_files external_env ≡ loaded external_config) ↔ (
    (c : Config) × Started empty_files
      (external_env (codes "ZSTACK_OVN_CONFIG_FILE"))
      default_config
      c
    × (external_config ≡ apply_env_overrides external_env c)
    × Valid external_config)
load_config-Valid_example = load_config-Valid empty_files external_env external_config

Valid-external_config : Valid external_config
unfolding validate problems text_eq valid_log_level
Valid-external_config = (validate-Valid external_config).0 refl

Valid-deployed_example : Local external_config ⊎ Remote external_config
Valid-deployed_example = Valid-deployed external_config Valid-external_config

apply_env_overrides-PositiveInt64_example :
    PositiveInt64 (apply_env_overrides external_env default_config).dpdk.queues
    × PositiveInt64 (apply_env_overrides external_env default_config).dpdk.min_hugepages_mb
apply_env_overrides-PositiveInt64_example =
    apply_env_overrides-PositiveInt64 external_env default_config (omega arith) (omega arith)

abbrev two_addresses : Text
two_addresses = codes "tcp:10.0.0.1:6641, ssl:host"

two_addresses_refused :
    validate_db_address_format two_addresses ≡ some (invalid_format (codes "ssl:host"))
unfolding validate_db_address_format check_parts check_address trim_prefix has_prefix contains_byte
    split trim_space
two_addresses_refused = refl

validate_db_address_format-AddressPart_example :
    (validate_db_address_format two_addresses ≡ none)
    ↔ ((two_addresses ≢ []) × All (λ p. AddressPart (trim_space p)) (split two_addresses b','))
validate_db_address_format-AddressPart_example =
    validate_db_address_format-AddressPart two_addresses

abbrev pod_args : CniArgs
pod_args = record {
  pod_namespace = codes "default";
  pod_name = codes "web-0";
  pod_uid = codes "9f=2";
  container_id = codes "c1";
  sandbox_id = [];
}

parse_cni_args-cni_args_text_example : parse_cni_args (cni_args_text pod_args) ≡ parsed pod_args
unfolding contains_byte trim_space
parse_cni_args-cni_args_text_example =
    parse_cni_args-cni_args_text pod_args (λ e. cc) (λ e. cc) (refl, refl) (refl, refl) (refl, refl)
      (refl, refl) (refl, refl)
