-- ===== src/Config/Accepted.antt =====
-- pkg/config/config.go: the configurations that Validate accepts.
use zstack_ovn_kubernetes.Base.{
  ℕ, ◌≡◌, ◌≢◌, refl, ◌≤◌, ◌↔◌, ◌⊎◌, inl, inr, true, List, [], ◌∷◌, Text, codes, none, ℤ, pos,
  negsuc, text_eq_iff, arith, All, Bool-cases, subst,
}
use mathlib.Core.List.{Mem, not-mem-nil}
use zstack_ovn_kubernetes.Config.{Config}
use zstack_ovn_kubernetes.Config.Validate.{
  Problem, invalid_mode, nbdb_required, sbdb_required, ca_cert_required, client_cert_required,
  client_key_required, cluster_cidr_required, service_cidr_required, invalid_node_subnet_size,
  invalid_gateway_mode, invalid_tunnel_type, invalid_log_level, invalid_log_format,
  invalid_socket_mode, invalid_queues, socket_dir_required, problems, one_of, validate, report,
}
use zstack_ovn_kubernetes.Config.Valid.{
  Violated, Neither, OutOfBounds, BelowOne, one_of-Neither, problems-All,
}
use zstack_ovn_kubernetes.Config.Reported.{Violated-reported}

abbrev pub Among : Text → Text → Text → Type 0
Among a b s = (s ≡ a) ⊎ (s ≡ b)

abbrev pub Between : ℤ → ℕ → ℕ → Type 0
Between (pos n) low high = (low ≤ n) × (n ≤ high)
Between (negsuc n) low high = ⊥

abbrev pub Positive : ℤ → Type 0
Positive (pos n) = 1 ≤ n
Positive (negsuc n) = ⊥

pub record Valid (c : Config) : Type 0 where
  pub mode : Among (codes "standalone") (codes "external") c.ovn.mode
  pub external :
      c.ovn.mode ≡ codes "external" → (c.ovn.nbdb_address ≢ []) × (c.ovn.sbdb_address ≢ [])
  pub ssl :
      c.ovn.ssl.enabled ≡ true
      → (c.ovn.ssl.ca_cert ≢ []) × (c.ovn.ssl.client_cert ≢ []) × (c.ovn.ssl.client_key ≢ [])
  pub cluster_cidr : c.network.cluster_cidr ≢ []
  pub service_cidr : c.network.service_cidr ≢ []
  pub node_subnet_size : Between c.network.node_subnet_size 16 30
  pub gateway_mode : Among (codes "shared") (codes "local") c.gateway.mode
  pub tunnel_type : Among (codes "vxlan") (codes "geneve") c.tunnel.type
  pub log_level :
      Among (codes "debug") (codes "info") c.logging.level
      ⊎ Among (codes "warn") (codes "error") c.logging.level
  pub log_format : Among (codes "json") (codes "text") c.logging.format
  pub dpdk :
      c.dpdk.enabled ≡ true
      → Among (codes "client") (codes "server") c.dpdk.socket_mode
        × Positive c.dpdk.queues
        × (c.dpdk.socket_dir ≢ [])

not-Neither : (a b s : Text) → ¬ Neither a b s → Among a b s
not-Neither a b s h = elim (Bool-cases (one_of a b s)) [
  | inl e ↦ ground (arith, text_eq_iff s a, text_eq_iff s b)
  | inr e ↦ absurd (h (one_of-Neither a b s (rw e refl)))
]

not-BothNeither : (a b c d s : Text) → ¬ (Neither a b s × Neither c d s) → Among a b s ⊎ Among c d s
not-BothNeither a b c d s h = elim (Bool-cases (one_of a b s)) [
  | inl e ↦ inl (ground (arith, text_eq_iff s a, text_eq_iff s b))
  | inr e ↦ inr (not-Neither c d s (λ n. h (one_of-Neither a b s (rw e refl), n)))
]

Among-not : (a b s : Text) → Among a b s → ¬ Neither a b s
Among-not a b s (inl e) n = n.0 e
Among-not a b s (inr e) n = n.1 e

not-OutOfBounds : (n : ℤ) (low high : ℕ) → ¬ OutOfBounds n low high → Between n low high
not-OutOfBounds (pos n) low high h = ground arith
not-OutOfBounds (negsuc n) low high h = h tt

Between-not : (n : ℤ) (low high : ℕ) → Between n low high → ¬ OutOfBounds n low high
Between-not (pos n) low high h o = ground arith
Between-not (negsuc n) low high h o = h

not-BelowOne : (n : ℤ) → ¬ BelowOne n → Positive n
not-BelowOne (pos n) h = ground arith
not-BelowOne (negsuc n) h = h tt

Positive-not : (n : ℤ) → Positive n → ¬ BelowOne n
Positive-not (pos n) h o = omega arith
Positive-not (negsuc n) h o = h

module _ (c : Config) where
  unviolated-Valid : ((p : Problem) → ¬ Violated c p) → Valid c
  unviolated-Valid h = record {
    mode = not-Neither _ _ _ (λ n. h (invalid_mode c.ovn.mode) (refl, n));
    external = λ e. (λ a. h nbdb_required (e, a), λ a. h sbdb_required (e, a));
    ssl = λ e. (
      λ a. h ca_cert_required (e, a),
      λ a. h client_cert_required (e, a),
      λ a. h client_key_required (e, a),
    );
    cluster_cidr = h cluster_cidr_required;
    service_cidr = h service_cidr_required;
    node_subnet_size =
        not-OutOfBounds c.network.node_subnet_size 16 30
          (λ o. h (invalid_node_subnet_size c.network.node_subnet_size) (refl, o));
    gateway_mode = not-Neither _ _ _ (λ n. h (invalid_gateway_mode c.gateway.mode) (refl, n));
    tunnel_type = not-Neither _ _ _ (λ n. h (invalid_tunnel_type c.tunnel.type) (refl, n));
    log_level =
        not-BothNeither _ _ _ _ _ (λ n. h (invalid_log_level c.logging.level) (refl, n.0, n.1));
    log_format = not-Neither _ _ _ (λ n. h (invalid_log_format c.logging.format) (refl, n));
    dpdk = λ e. (
      not-Neither _ _ _ (λ n. h (invalid_socket_mode c.dpdk.socket_mode) (e, refl, n)),
      not-BelowOne c.dpdk.queues (λ o. h (invalid_queues c.dpdk.queues) (e, refl, o)),
      λ a. h socket_dir_required (e, a),
    );
  }

  Valid-unviolated : Valid c → (p : Problem) → ¬ Violated c p
  Valid-unviolated v (invalid_mode m) p = Among-not _ _ _ v.mode p.1
  Valid-unviolated v nbdb_required p = (v.external p.0).0 p.1
  Valid-unviolated v sbdb_required p = (v.external p.0).1 p.1
  Valid-unviolated v ca_cert_required p = (v.ssl p.0).0 p.1
  Valid-unviolated v client_cert_required p = (v.ssl p.0).1 p.1
  Valid-unviolated v client_key_required p = (v.ssl p.0).2 p.1
  Valid-unviolated v cluster_cidr_required p = v.cluster_cidr p
  Valid-unviolated v service_cidr_required p = v.service_cidr p
  Valid-unviolated v (invalid_node_subnet_size n) p =
      Between-not c.network.node_subnet_size 16 30 v.node_subnet_size p.1
  Valid-unviolated v (invalid_gateway_mode m) p = Among-not _ _ _ v.gateway_mode p.1
  Valid-unviolated v (invalid_tunnel_type t) p = Among-not _ _ _ v.tunnel_type p.1
  Valid-unviolated v (invalid_log_level l) p = elim v.log_level [
    | inl a ↦ Among-not _ _ _ a p.1
    | inr a ↦ Among-not _ _ _ a p.2
  ]
  Valid-unviolated v (invalid_log_format f) p = Among-not _ _ _ v.log_format p.1
  Valid-unviolated v (invalid_socket_mode m) p = Among-not _ _ _ (v.dpdk p.0).0 p.2
  Valid-unviolated v (invalid_queues n) p = Positive-not c.dpdk.queues (v.dpdk p.0).1 p.2
  Valid-unviolated v socket_dir_required p = (v.dpdk p.0).2 p.1

  All-nil : (ps : List Problem) → All (Violated c) ps → ((p : Problem) → ¬ Violated c p) → ps ≡ []
  All-nil [] all h = refl
  All-nil (p ∷ ps) all h = absurd (h p all.0)

  report-nil : (ps : List Problem) → report ps ≡ none → ps ≡ []
  report-nil [] e = refl
  report-nil (p ∷ ps) e = absurd cc

  -- Validate returns no error exactly for the valid configurations: both modes spelled right, the
  -- addresses of an external database and the files of an enabled SSL named, both CIDRs named, a node
  -- subnet size of 16 to 30, known gateway, tunnel and logging words, and for an enabled DPDK a known
  -- socket mode, one queue at least and a socket directory.
  pub validate-Valid : (validate c ≡ none) ↔ Valid c
  unfolding validate
  validate-Valid = (
    λ e.
        unviolated-Valid (λ p v.
          not-mem-nil (subst (Mem p) (report-nil (problems c) e) (Violated-reported c p v))),
    λ v. rw (All-nil (problems c) (problems-All c) (Valid-unviolated v)) refl,
  )
