-- ===== src/Config/Valid.antt =====
-- pkg/config/config.go: what Validate demands, and that it reports exactly what is violated.
use zstack_ovn_kubernetes.Base.{
  ℕ, ◌≡◌, ◌≢◌, refl, ◌<◌, ◌↔◌, ◌⊎◌, Bool, true, false, not, List, [], ◌∷◌, Text, codes, ℤ, pos,
  negsuc, if◌then◌else◌, is_empty, text_eq, text_eq_iff, arith, All, All-append,
}
use zstack_ovn_kubernetes.Config.{Config}
use zstack_ovn_kubernetes.Config.Validate.{
  Problem, invalid_mode, nbdb_required, sbdb_required, ca_cert_required, client_cert_required,
  client_key_required, cluster_cidr_required, service_cidr_required, invalid_node_subnet_size,
  invalid_gateway_mode, invalid_tunnel_type, invalid_log_level, invalid_log_format,
  invalid_socket_mode, invalid_queues, socket_dir_required, problems, when, one_of, size_in_range,
  at_least_one, valid_log_level, external_problems, ssl_problems, network_problems,
  logging_problems, dpdk_problems,
}

-- Neither of two texts.
abbrev pub Neither : Text → Text → Text → Type 0
Neither a b s = (s ≢ a) × (s ≢ b)

-- A value outside the bounds: below the first or above the second.
abbrev pub OutOfBounds : ℤ → ℕ → ℕ → Type 0
OutOfBounds (pos n) low high = (n < low) ⊎ (high < n)
OutOfBounds (negsuc n) low high = Unit {0}

abbrev pub BelowOne : ℤ → Type 0
BelowOne (pos n) = n < 1
BelowOne (negsuc n) = Unit {0}

-- The requirement behind each message does not hold.
abbrev pub Violated : Config → Problem → Type 0
Violated c (invalid_mode m) =
    (m ≡ c.ovn.mode) × Neither (codes "standalone") (codes "external") c.ovn.mode
Violated c nbdb_required = (c.ovn.mode ≡ codes "external") × (c.ovn.nbdb_address ≡ [])
Violated c sbdb_required = (c.ovn.mode ≡ codes "external") × (c.ovn.sbdb_address ≡ [])
Violated c ca_cert_required = (c.ovn.ssl.enabled ≡ true) × (c.ovn.ssl.ca_cert ≡ [])
Violated c client_cert_required = (c.ovn.ssl.enabled ≡ true) × (c.ovn.ssl.client_cert ≡ [])
Violated c client_key_required = (c.ovn.ssl.enabled ≡ true) × (c.ovn.ssl.client_key ≡ [])
Violated c cluster_cidr_required = c.network.cluster_cidr ≡ []
Violated c service_cidr_required = c.network.service_cidr ≡ []
Violated c (invalid_node_subnet_size n) =
    (n ≡ c.network.node_subnet_size) × OutOfBounds c.network.node_subnet_size 16 30
Violated c (invalid_gateway_mode m) =
    (m ≡ c.gateway.mode) × Neither (codes "shared") (codes "local") c.gateway.mode
Violated c (invalid_tunnel_type t) =
    (t ≡ c.tunnel.type) × Neither (codes "vxlan") (codes "geneve") c.tunnel.type
Violated c (invalid_log_level l) =
    (l ≡ c.logging.level)
    × Neither (codes "debug") (codes "info") c.logging.level
    × Neither (codes "warn") (codes "error") c.logging.level
Violated c (invalid_log_format f) =
    (f ≡ c.logging.format) × Neither (codes "json") (codes "text") c.logging.format
Violated c (invalid_socket_mode m) =
    (c.dpdk.enabled ≡ true)
    × (m ≡ c.dpdk.socket_mode)
    × Neither (codes "client") (codes "server") c.dpdk.socket_mode
Violated c (invalid_queues n) =
    (c.dpdk.enabled ≡ true) × (n ≡ c.dpdk.queues) × BelowOne c.dpdk.queues
Violated c socket_dir_required = (c.dpdk.enabled ≡ true) × (c.dpdk.socket_dir ≡ [])

pub is_empty_iff : (s : Text) → is_empty s ≡ true → s ≡ []
is_empty_iff [] e = refl
is_empty_iff (c ∷ s) e = absurd cc

pub one_of-Neither : (a b s : Text) → not (one_of a b s) ≡ true → Neither a b s
one_of-Neither a b s e =
    (λ h. ground (arith, text_eq_iff s a), λ h. ground (arith, text_eq_iff s b))

pub Neither-one_of : (a b s : Text) → Neither a b s → not (one_of a b s) ≡ true
Neither-one_of a b s n = ground (arith, text_eq_iff s a, text_eq_iff s b)

pub out_of_bounds : (n : ℤ) → (not (size_in_range n) ≡ true) ↔ OutOfBounds n 16 30
out_of_bounds (pos n) = (λ h. ground arith, λ h. ground arith)
out_of_bounds (negsuc n) = (λ h. tt, λ h. refl)

pub below_one : (n : ℤ) → (not (at_least_one n) ≡ true) ↔ BelowOne n
below_one (pos n) = (λ h. ground arith, λ h. ground arith)
below_one (negsuc n) = (λ h. tt, λ h. refl)

pub level-Neither :
    (l : Text)
    → (not (valid_log_level l) ≡ true)
      ↔ (Neither (codes "debug") (codes "info") l × Neither (codes "warn") (codes "error") l)
unfolding valid_log_level
level-Neither l = (
  λ h. (
    one_of-Neither (codes "debug") (codes "info") l (ground arith),
    one_of-Neither (codes "warn") (codes "error") l (ground arith),
  ),
  λ h. ground (
    arith,
    Neither-one_of (codes "debug") (codes "info") l,
    Neither-one_of (codes "warn") (codes "error") l,
  ),
)

module _ (P : Problem → Type 0) where
  when-All : (test : Bool) (p : Problem) → (test ≡ true → P p) → All P (when test p)
  when-All true p h = (h refl, tt)
  when-All false p h = tt

  under-All :
      (test : Bool) (ps : List Problem) → (test ≡ true → All P ps) → All P (if test then ps else [])
  under-All true ps h = h refl
  under-All false ps h = tt

module _ (c : Config) where
  abbrev pub V : Problem → Type 0
  V = Violated c

  external-All : All V (external_problems c.ovn)
  external-All = under-All V (text_eq c.ovn.mode (codes "external")) _ λ e.
      let external = (text_eq_iff c.ovn.mode (codes "external")).0 e in
      All-append V _ _
        (when-All V (is_empty c.ovn.nbdb_address) nbdb_required (λ h. (external, is_empty_iff _ h)))
        (when-All V (is_empty c.ovn.sbdb_address) sbdb_required (λ h. (external, is_empty_iff _ h)))

  ssl-All : All V (ssl_problems c.ovn.ssl)
  ssl-All = under-All V c.ovn.ssl.enabled _ λ on.
      All-append V _ _
        (when-All V (is_empty c.ovn.ssl.ca_cert) ca_cert_required (λ h. (on, is_empty_iff _ h)))
        (All-append V _ _
          (when-All V (is_empty c.ovn.ssl.client_cert) client_cert_required
            (λ h. (on, is_empty_iff _ h)))
          (when-All V (is_empty c.ovn.ssl.client_key) client_key_required
            (λ h. (on, is_empty_iff _ h))))

  network-All : All V (network_problems c.network)
  network-All =
      All-append V _ _
        (when-All V (is_empty c.network.cluster_cidr) cluster_cidr_required (is_empty_iff _))
        (All-append V _ _
          (when-All V (is_empty c.network.service_cidr) service_cidr_required (is_empty_iff _))
          (when-All V (not (size_in_range c.network.node_subnet_size))
            (invalid_node_subnet_size c.network.node_subnet_size)
            (λ h. (refl, (out_of_bounds c.network.node_subnet_size).0 h))))

  logging-All : All V (logging_problems c.logging)
  logging-All =
      All-append V _ _
        (when-All V (not (valid_log_level c.logging.level)) (invalid_log_level c.logging.level)
          (λ h. let l = (level-Neither c.logging.level).0 h in (refl, l.0, l.1)))
        (when-All V (not (one_of (codes "json") (codes "text") c.logging.format))
          (invalid_log_format c.logging.format) (λ h. (refl, one_of-Neither _ _ _ h)))

  dpdk-All : All V (dpdk_problems c.dpdk)
  dpdk-All = under-All V c.dpdk.enabled _ λ on.
      All-append V _ _
        (when-All V (not (one_of (codes "client") (codes "server") c.dpdk.socket_mode))
          (invalid_socket_mode c.dpdk.socket_mode) (λ h. (on, refl, one_of-Neither _ _ _ h)))
        (All-append V _ _
          (when-All V (not (at_least_one c.dpdk.queues)) (invalid_queues c.dpdk.queues)
            (λ h. (on, refl, (below_one c.dpdk.queues).0 h)))
          (when-All V (is_empty c.dpdk.socket_dir) socket_dir_required
            (λ h. (on, is_empty_iff _ h))))

  choice-All :
      (a b s : Text) (p : Problem) → (Neither a b s → V p) → All V (when (not (one_of a b s)) p)
  choice-All a b s p v = when-All V (not (one_of a b s)) p (λ h. v (one_of-Neither a b s h))

  pub problems-All : All V (problems c)
  unfolding problems
  problems-All =
      All-append V _ _
        (choice-All (codes "standalone") (codes "external") c.ovn.mode (invalid_mode c.ovn.mode)
          (λ n. (refl, n)))
        (All-append V _ _ external-All (
          All-append V _ _ ssl-All (
            All-append V _ _ network-All (
              All-append V _ _
                (choice-All (codes "shared") (codes "local") c.gateway.mode
                  (invalid_gateway_mode c.gateway.mode) (λ n. (refl, n)))
                (All-append V _ _
                  (choice-All (codes "vxlan") (codes "geneve") c.tunnel.type
                    (invalid_tunnel_type c.tunnel.type) (λ n. (refl, n)))
                  (All-append V _ _ logging-All dpdk-All))))))
