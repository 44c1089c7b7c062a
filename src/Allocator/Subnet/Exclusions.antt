-- ===== src/Allocator/Subnet/Exclusions.antt =====
-- pkg/allocator/subnet_allocator.go: what NewSubnetAllocator is told to exclude stays excluded.
use zstack_ovn_kubernetes.Base.{
  is_some, ℕ, zero, suc, ◌≡◌, refl, sym, ◌∙◌, true, false, ◌||◌, Option, none, some, List, [], ◌∷◌,
  Text, split, contains_byte, trim_space, Bool-cases, inl, inr, ◌⊎◌, text_eq, text_eq_refl,
}
use zstack_ovn_kubernetes.Base.Dict.{lookup, insert, lookup-insert}
use zstack_ovn_kubernetes.Net.Ip.{Ip, IpNet, is_nil, ip_equal}
use zstack_ovn_kubernetes.Net.Parse.{parse_ip, parse_cidr}
use zstack_ovn_kubernetes.Allocator.Subnet.{
  SubnetAllocator, exclude_ip, increment_ip, ip_to_index, is_excluded, shortest,
}
use zstack_ovn_kubernetes.Allocator.Subnet.Errors.{
  Outcome, ok, err, panic, running, invalid_cidr, ◌>>=◌,
}
use zstack_ovn_kubernetes.Allocator.Subnet.Exclude.{
  or_skip, exclude_range, exclude_parts, parse_and_exclude, exclude_all, allocator_of,
  new_subnet_allocator,
}

-- A later allocator of the same subnet: indices are the same, and what was excluded still is.
pub record Later (a b : SubnetAllocator) : Type 0 where
  pub indices : (q : Ip) → ip_to_index b q ≡ ip_to_index a q
  pub grows : (q : Ip) → is_excluded a q ≡ true → is_excluded b q ≡ true

unchanged : (a : SubnetAllocator) → Later a a
unchanged a = record { indices = λ q. refl; grows = λ q h. h }

chained : {a b c : SubnetAllocator} → Later a b → Later b c → Later a c
chained p r = record {
  indices = λ q. r.indices q ∙ p.indices q;
  grows = λ q h. r.grows q (p.grows q h);
}

abbrev LaterOutcome : SubnetAllocator → Outcome SubnetAllocator → Type 0
LaterOutcome a (ok b) = Later a b
LaterOutcome a (err e) = Unit
LaterOutcome a panic = Unit
LaterOutcome a running = Unit

-- A successful excludeIP: the address is excluded from then on.
excluded_now :
    (a : SubnetAllocator) (ip : Ip) (i : ℕ)
    → ip_to_index a ip ≡ ok i
    → (b : SubnetAllocator) × (exclude_ip a ip ≡ ok b) × Later a b × (is_excluded b ip ≡ true)
unfolding exclude_ip ip_to_index
excluded_now a ip i e =
    rw (e, exclude_ip)
      (
        _,
        refl,
        record { indices = λ q. refl; grows = λ q h. still q h },
        rw (lookup-insert (shortest ip) (shortest ip) tt a.exclude_ips, text_eq_refl (shortest ip))
            refl,
      )
  where
    still :
        (q : Ip)
        → is_some (lookup (shortest q) a.exclude_ips) ≡ true
        → is_some (lookup (shortest q) (insert (shortest ip) tt a.exclude_ips)) ≡ true
    still q h = elim (Bool-cases (text_eq (shortest ip) (shortest q))) [
      | inl same ↦ rw (lookup-insert (shortest ip) (shortest q) tt a.exclude_ips, same) refl
      | inr other ↦ rw (lookup-insert (shortest ip) (shortest q) tt a.exclude_ips, other) h
    ]

exclude_ip-LaterOutcome : (a : SubnetAllocator) (ip : Ip) → LaterOutcome a (exclude_ip a ip)
unfolding exclude_ip
exclude_ip-LaterOutcome a ip = by_index (ip_to_index a ip) refl
  where
    by_excluded : (i : ℕ) → ip_to_index a ip ≡ ok i → LaterOutcome a (exclude_ip a ip)
    by_excluded i e = let (b, made, l, x) = excluded_now a ip i e in rw made l

    by_index : (r : Outcome ℕ) → ip_to_index a ip ≡ r → LaterOutcome a (exclude_ip a ip)
    by_index (ok i) e = by_excluded i e
    by_index (err x) e = rw (e, exclude_ip) tt
    by_index panic e = rw (e, exclude_ip) tt
    by_index running e = rw (e, exclude_ip) tt

or_skip-LaterOutcome :
    (a : SubnetAllocator) (r : Outcome SubnetAllocator)
    → LaterOutcome a r
    → LaterOutcome a (or_skip a r)
or_skip-LaterOutcome a (ok b) h = h
or_skip-LaterOutcome a (err e) h = unchanged a
or_skip-LaterOutcome a panic h = tt
or_skip-LaterOutcome a running h = tt

after_step :
    {a b : SubnetAllocator} (r : Outcome SubnetAllocator)
    → Later a b
    → LaterOutcome b r
    → LaterOutcome a r
after_step (ok c) l h = chained l h
after_step (err e) l h = tt
after_step panic l h = tt
after_step running l h = tt

>>=-LaterOutcome :
    (a : SubnetAllocator) (r : Outcome SubnetAllocator)
    (f : SubnetAllocator → Outcome SubnetAllocator)
    → LaterOutcome a r
    → ((b : SubnetAllocator) → LaterOutcome b (f b))
    → LaterOutcome a (r >>= f)
>>=-LaterOutcome a (ok b) f h k = after_step (f b) h (k b)
>>=-LaterOutcome a (err e) f h k = tt
>>=-LaterOutcome a panic f h k = tt
>>=-LaterOutcome a running f h k = tt

exclude_range-LaterOutcome :
    (rounds : ℕ) (a : SubnetAllocator) (ip stop : Ip)
    → LaterOutcome a (exclude_range rounds a ip stop)
unfolding exclude_range
exclude_range-LaterOutcome zero a ip stop = tt
exclude_range-LaterOutcome (suc rounds) a ip stop = elim (Bool-cases (ip_equal ip stop)) [
  | inl met ↦ rw (met, exclude_range) (unchanged a)
  | inr more ↦
      rw (more, exclude_range)
        (>>=-LaterOutcome a (or_skip a (exclude_ip a ip)) _
          (or_skip-LaterOutcome a (exclude_ip a ip) (exclude_ip-LaterOutcome a ip))
          (λ b. exclude_range-LaterOutcome rounds b (increment_ip ip) stop))
]

exclude_parts-LaterOutcome :
    (rounds : ℕ) (a : SubnetAllocator) (spec : Text) (parts : List Text)
    → LaterOutcome a (exclude_parts rounds a spec parts)
unfolding exclude_parts
exclude_parts-LaterOutcome rounds a spec [] = tt
exclude_parts-LaterOutcome rounds a spec (p ∷ []) = tt
exclude_parts-LaterOutcome rounds a spec (p ∷ q ∷ r ∷ parts) = tt
exclude_parts-LaterOutcome rounds a spec (p ∷ q ∷ []) =
    elim (Bool-cases (is_nil (parse_ip (trim_space p)) || is_nil (parse_ip (trim_space q)))) [
      | inl bad ↦ rw bad tt
      | inr good ↦ rw good (
          exclude_range-LaterOutcome rounds a (parse_ip (trim_space p))
            (increment_ip (parse_ip (trim_space q))))
    ]

parse_and_exclude-LaterOutcome :
    (rounds : ℕ) (a : SubnetAllocator) (spec : Text)
    → LaterOutcome a (parse_and_exclude rounds a spec)
unfolding parse_and_exclude
parse_and_exclude-LaterOutcome rounds a spec = elim (Bool-cases (contains_byte b'-' spec)) [
  | inl range ↦ rw range (exclude_parts-LaterOutcome rounds a spec (split spec b'-'))
  | inr single ↦ elim (Bool-cases (is_nil (parse_ip (trim_space spec)))) [
    | inl bad ↦ rw (single, bad) tt
    | inr good ↦
        rw (single, good)
          (or_skip-LaterOutcome a _ (exclude_ip-LaterOutcome a (parse_ip (trim_space spec))))
  ]
]

exclude_all-LaterOutcome :
    (rounds : ℕ) (a : SubnetAllocator) (specs : List Text)
    → LaterOutcome a (exclude_all rounds a specs)
unfolding exclude_all
exclude_all-LaterOutcome rounds a [] = unchanged a
exclude_all-LaterOutcome rounds a (spec ∷ specs) =
    >>=-LaterOutcome a (parse_and_exclude rounds a spec) _
      (parse_and_exclude-LaterOutcome rounds a spec) (λ b. exclude_all-LaterOutcome rounds b specs)

abbrev pub Listed : Text → List Text → Type 0
Listed t [] = ⊥
Listed t (s ∷ specs) = (t ≡ s) ⊎ Listed t specs

-- A successful chain goes through a successful first step.
>>=-ok :
    (r : Outcome SubnetAllocator) (f : SubnetAllocator → Outcome SubnetAllocator)
    (c : SubnetAllocator)
    → (r >>= f) ≡ ok c
    → (b : SubnetAllocator) × (r ≡ ok b) × (f b ≡ ok c)
>>=-ok (ok b) f c e = (b, refl, e)
>>=-ok (err x) f c e = absurd cc
>>=-ok panic f c e = absurd cc
>>=-ok running f c e = absurd cc

single_excluded :
    (rounds : ℕ) (a b : SubnetAllocator) (spec : Text) (i : ℕ)
    → contains_byte b'-' spec ≡ false
    → is_nil (parse_ip (trim_space spec)) ≡ false
    → ip_to_index a (parse_ip (trim_space spec)) ≡ ok i
    → parse_and_exclude rounds a spec ≡ ok b
    → is_excluded b (parse_ip (trim_space spec)) ≡ true
unfolding parse_and_exclude
single_excluded rounds a b spec i single good e h =
    let (c, made, l, x) = excluded_now a (parse_ip (trim_space spec)) i e in
    let same : ok c ≡ ok b = rw (single, good, parse_and_exclude, made) at h in
    rw (← ok_same c b same) x
  where
    ok_same : (c d : SubnetAllocator) → ok c ≡ ok d → c ≡ d
    ok_same c d h = cc

exclude_all_single :
    (rounds : ℕ) (a b : SubnetAllocator) (specs : List Text) (spec : Text) (i : ℕ)
    → Listed spec specs
    → contains_byte b'-' spec ≡ false
    → is_nil (parse_ip (trim_space spec)) ≡ false
    → ip_to_index a (parse_ip (trim_space spec)) ≡ ok i
    → exclude_all rounds a specs ≡ ok b
    → is_excluded b (parse_ip (trim_space spec)) ≡ true
unfolding exclude_all
exclude_all_single rounds a b [] spec i m single good e h = absurd m
exclude_all_single rounds a b (s ∷ specs) spec i (inl eq) single good e h =
    let (c, made, rest) = >>=-ok (parse_and_exclude rounds a s) _ b h in
    let later : Later c b = rw rest at (exclude_all-LaterOutcome rounds c specs) in
    later.grows (parse_ip (trim_space spec))
      (single_excluded rounds a c spec i single good e (rw eq made))
exclude_all_single rounds a b (s ∷ specs) spec i (inr m) single good e h =
    let (c, made, rest) = >>=-ok (parse_and_exclude rounds a s) _ b h in
    let later : Later a c = rw made at (parse_and_exclude-LaterOutcome rounds a s) in
    exclude_all_single rounds c b specs spec i m single good
      (later.indices (parse_ip (trim_space spec)) ∙ e) rest

-- Whenever NewSubnetAllocator returns an allocator, every exclusion that names one address with an
-- index in it has that address excluded, whatever the other exclusions are.
pub new_subnet_allocator-excluded :
    (rounds : ℕ) (cidr : Text) (specs : List Text) (spec : Text) (i : ℕ) (b : SubnetAllocator)
    → new_subnet_allocator rounds cidr specs ≡ ok b
    → Listed spec specs
    → contains_byte b'-' spec ≡ false
    → is_nil (parse_ip (trim_space spec)) ≡ false
    → ip_to_index b (parse_ip (trim_space spec)) ≡ ok i
    → is_excluded b (parse_ip (trim_space spec)) ≡ true
unfolding new_subnet_allocator
new_subnet_allocator-excluded rounds cidr specs spec i b h m single good e =
    by_cidr (parse_cidr cidr) refl
  where
    by_allocator :
        (n : IpNet)
        → (allocator_of n cidr >>= λ a. exclude_all rounds a specs) ≡ ok b
        → is_excluded b (parse_ip (trim_space spec)) ≡ true
    by_allocator n k =
        let (a, made, rest) = >>=-ok (allocator_of n cidr) (λ a. exclude_all rounds a specs) b k in
        let later : Later a b = rw rest at (exclude_all-LaterOutcome rounds a specs) in
        exclude_all_single rounds a b specs spec i m single good
          (sym (later.indices (parse_ip (trim_space spec))) ∙ e) rest

    by_cidr :
        (r : Option (Ip × IpNet))
        → parse_cidr cidr ≡ r
        → is_excluded b (parse_ip (trim_space spec)) ≡ true
    by_cidr none p = absurd (failed (rw (p, new_subnet_allocator) at h))
      where
        failed : err (invalid_cidr cidr) ≡ ok b → ⊥
        failed x = absurd cc
    by_cidr (some (ip, n)) p = by_allocator n (rw (p, new_subnet_allocator) at h)
