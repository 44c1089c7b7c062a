-- ===== src/Config/Cni.antt =====
-- pkg/config/cni.go: the arguments and the configuration of the CNI plugin. json.Unmarshal and the
-- fields of types.NetConf are parameters.
use zstack_ovn_kubernetes.Base.{
  ℕ, List, [], ◌∷◌, Text, codes, Option, none, some, ℤ, pos, negsuc, if◌then◌else◌, is_empty,
  text_eq, trim_space, split, ◌==◌,
}

pub record CniArgs : Type 0 where
  pub pod_namespace : Text
  pub pod_name : Text
  pub pod_uid : Text
  pub container_id : Text
  pub sandbox_id : Text

pub data CniArgsError : Type 0 where
  cni_args_not_set : CniArgsError
  pod_namespace_required : CniArgsError
  pod_name_required : CniArgsError

pub data CniArgsResult : Type 0 where
  parsed : CniArgs → CniArgsResult
  refused : CniArgsError → CniArgsResult

abbrev before : ℕ → Option (Text × Text) → Option (Text × Text)
before c none = none
before c (some (k, v)) = some (c ∷ k, v)

-- strings.SplitN(pair, "=", 2), `none` where the result has not two parts.
unfoldable pub split_pair : Text → Option (Text × Text)
split_pair [] = none
split_pair (c ∷ s) = let rest = split_pair s in if c == b'=' then some ([], s) else before c rest

abbrev pub assign : Text → Text → CniArgs → CniArgs
assign key value args =
    if text_eq key (codes "K8S_POD_NAMESPACE")
    then record args { pod_namespace = value }
    else if text_eq key (codes "K8S_POD_NAME")
    then record args { pod_name = value }
    else if text_eq key (codes "K8S_POD_UID")
    then record args { pod_uid = value }
    else if text_eq key (codes "K8S_POD_INFRA_CONTAINER_ID")
    then record args { container_id = value }
    else if text_eq key (codes "K8S_POD_SANDBOX_ID")
    then record args { sandbox_id = value }
    else args

abbrev pub assign_pair : Option (Text × Text) → CniArgs → CniArgs
assign_pair none args = args
assign_pair (some (k, v)) args = assign (trim_space k) (trim_space v) args

-- The loop over the pairs.
unfoldable pub assign_all : List Text → CniArgs → CniArgs
unfolding split_pair
assign_all [] args = args
assign_all (p ∷ ps) args = assign_all ps (assign_pair (split_pair p) args)

abbrev pub no_args : CniArgs
no_args = record {
  pod_namespace = [];
  pod_name = [];
  pod_uid = [];
  container_id = [];
  sandbox_id = [];
}

abbrev pub require : CniArgs → CniArgsResult
require args =
    if is_empty args.pod_namespace
    then refused pod_namespace_required
    else if is_empty args.pod_name
    then refused pod_name_required
    else parsed args

-- ParseCNIArgs of the value of CNI_ARGS.
unfoldable pub parse_cni_args : Text → CniArgsResult
unfolding assign_all
parse_cni_args s =
    if is_empty s then refused cni_args_not_set else require (assign_all (split s b';') no_args)

pub record CniConfig (NetConf : Type 0) : Type 0 where
  pub net_conf : NetConf
  pub server_socket : Text
  pub log_file : Text
  pub log_level : Text
  pub mtu : ℤ

abbrev or_default : Text → Text → Text
or_default s d = if is_empty s then d else s

abbrev default_socket : Text
default_socket = codes "/var/run/zstack-ovn/cni-server.sock"

abbrev default_log : Text
default_log = codes "/var/log/zstack-ovn/cni.log"

abbrev mtu_or_default : ℤ → ℤ
mtu_or_default (pos n) = if n == 0 then pos 1400 else pos n
mtu_or_default (negsuc n) = negsuc n

module _ {NetConf : Type 0} where
  abbrev pub default_cni_config : NetConf → CniConfig NetConf
  default_cni_config conf = record {
    net_conf = conf;
    server_socket = default_socket;
    log_file = default_log;
    log_level = codes "info";
    mtu = pos 1400;
  }

  abbrev pub fill : CniConfig NetConf → CniConfig NetConf
  fill c = record c {
    server_socket = or_default c.server_socket default_socket;
    log_file = or_default c.log_file default_log;
    log_level = or_default c.log_level (codes "info");
    mtu = mtu_or_default c.mtu;
  }

  abbrev pub fill_parsed : Option (CniConfig NetConf) → Option (CniConfig NetConf)
  fill_parsed none = none
  fill_parsed (some c) = some (fill c)

  -- `none` is the error of json.Unmarshal, which starts from the defaults.
  unfoldable pub parse_cni_config :
      (Text → CniConfig NetConf → Option (CniConfig NetConf))
      → NetConf
      → Text
      → Option (CniConfig NetConf)
  parse_cni_config unmarshal conf text = fill_parsed (unmarshal text (default_cni_config conf))
