-- ===== src/Config/Reported.antt =====
-- pkg/config/config.go: Validate reports exactly the requirements that do not hold.
use mathlib.Core.List.{Mem, mem-append_left, mem-append_right, mem-cons_self}
use zstack_ovn_kubernetes.Base.{
  ◌≡◌, refl, Bool, true, List, [], ◌++◌, Text, codes, if◌then◌else◌, is_empty, text_eq, text_eq_iff,
  All,
}
use zstack_ovn_kubernetes.Config.{Config}
use zstack_ovn_kubernetes.Config.Validate.{
  Problem, invalid_mode, nbdb_required, sbdb_required, ca_cert_required, client_cert_required,
  client_key_required, cluster_cidr_required, service_cidr_required, invalid_node_subnet_size,
  invalid_gateway_mode, invalid_tunnel_type, invalid_log_level, invalid_log_format,
  invalid_socket_mode, invalid_queues, socket_dir_required, problems, when, external_problems,
  ssl_problems, network_problems, logging_problems, dpdk_problems,
}
use zstack_ovn_kubernetes.Config.Valid.{
  Violated, Neither-one_of, out_of_bounds, below_one, level-Neither, problems-All,
}

mem-when : (test : Bool) (p : Problem) → test ≡ true → Mem p (when test p)
mem-when test p e = rw e mem-cons_self

mem-under :
    (test : Bool) (p : Problem) (ps : List Problem)
    → test ≡ true
    → Mem p ps
    → Mem p (if test then ps else [])
mem-under test p ps e m = rw e m

ruleset membership = (mem-append_left, mem-append_right, mem-when, mem-under)

module _ (c : Config) where
  external-reported : (p : Problem) → Mem p (external_problems c.ovn) → Mem p (problems c)
  unfolding problems
  external-reported p m = search membership

  ssl-reported : (p : Problem) → Mem p (ssl_problems c.ovn.ssl) → Mem p (problems c)
  unfolding problems
  ssl-reported p m = search membership

  network-reported : (p : Problem) → Mem p (network_problems c.network) → Mem p (problems c)
  unfolding problems
  network-reported p m = search membership

  logging-reported : (p : Problem) → Mem p (logging_problems c.logging) → Mem p (problems c)
  unfolding problems
  logging-reported p m = search membership depth 9

  dpdk-reported : (p : Problem) → Mem p (dpdk_problems c.dpdk) → Mem p (problems c)
  unfolding problems
  dpdk-reported p m = search membership depth 9

  external-part :
      (p : Problem)
      → text_eq c.ovn.mode (codes "external") ≡ true
      → Mem p (
          when (is_empty c.ovn.nbdb_address) nbdb_required
          ++ when (is_empty c.ovn.sbdb_address) sbdb_required)
      → Mem p (problems c)
  external-part p e m = external-reported p (mem-under _ p _ e m)

  empty_text : (s : Text) → s ≡ [] → is_empty s ≡ true
  empty_text s e = rw e refl

  pub Violated-reported : (p : Problem) → Violated c p → Mem p (problems c)
  unfolding problems
  Violated-reported (invalid_mode m) v =
      let test = Neither-one_of (codes "standalone") (codes "external") c.ovn.mode v.1 in
      rw v.0 (search membership)
  Violated-reported nbdb_required v =
      let e = empty_text c.ovn.nbdb_address v.1 in
      external-part nbdb_required ((text_eq_iff _ _).1 v.0) (search membership)
  Violated-reported sbdb_required v =
      let e = empty_text c.ovn.sbdb_address v.1 in
      external-part sbdb_required ((text_eq_iff _ _).1 v.0) (search membership)
  Violated-reported ca_cert_required v =
      let e = empty_text c.ovn.ssl.ca_cert v.1 in ssl-reported ca_cert_required (search membership)
  Violated-reported client_cert_required v =
      let e = empty_text c.ovn.ssl.client_cert v.1 in
      ssl-reported client_cert_required (search membership)
  Violated-reported client_key_required v =
      let e = empty_text c.ovn.ssl.client_key v.1 in
      ssl-reported client_key_required (search membership)
  Violated-reported cluster_cidr_required v =
      let e = empty_text c.network.cluster_cidr v in
      network-reported cluster_cidr_required (search membership)
  Violated-reported service_cidr_required v =
      let e = empty_text c.network.service_cidr v in
      network-reported service_cidr_required (search membership)
  Violated-reported (invalid_node_subnet_size n) v =
      let e = (out_of_bounds c.network.node_subnet_size).1 v.1 in
      network-reported (invalid_node_subnet_size n) (rw v.0 (search membership))
  Violated-reported (invalid_gateway_mode m) v =
      let e = Neither-one_of (codes "shared") (codes "local") c.gateway.mode v.1 in
      rw v.0 (search membership depth 9)
  Violated-reported (invalid_tunnel_type t) v =
      let e = Neither-one_of (codes "vxlan") (codes "geneve") c.tunnel.type v.1 in
      rw v.0 (search membership depth 9)
  Violated-reported (invalid_log_level l) v =
      let e = (level-Neither c.logging.level).1 (v.1, v.2) in
      logging-reported (invalid_log_level l) (rw v.0 (search membership))
  Violated-reported (invalid_log_format f) v =
      let e = Neither-one_of (codes "json") (codes "text") c.logging.format v.1 in
      logging-reported (invalid_log_format f) (rw v.0 (search membership))
  Violated-reported (invalid_socket_mode m) v =
      let e = Neither-one_of (codes "client") (codes "server") c.dpdk.socket_mode v.2 in
      dpdk-reported (invalid_socket_mode m) (rw v.1 (search membership))
  Violated-reported (invalid_queues n) v =
      let e = (below_one c.dpdk.queues).1 v.2 in
      dpdk-reported (invalid_queues n) (rw v.1 (search membership))
  Violated-reported socket_dir_required v =
      let e = empty_text c.dpdk.socket_dir v.1 in
      dpdk-reported socket_dir_required (search membership)

  -- Validate gathers a problem for each requirement that does not hold, and no other problem.
  pub problems-Violated :
      All (Violated c) (problems c) × ((p : Problem) → Violated c p → Mem p (problems c))
  problems-Violated = (problems-All c, Violated-reported)
