-- ===== src/Allocator/Subnet/History.antt =====
-- pkg/allocator/subnet_allocator.go over a history of calls, with the addresses that callers hold.
use zstack_ovn_kubernetes.Base.{
  ◌≡◌, true, false, List, [], ◌∷◌, if◌then◌else◌, arith, All, Bool-cases, inl, inr,
}
use zstack_ovn_kubernetes.Net.Ip.{Ip, to4, is_nil, value}
use zstack_ovn_kubernetes.Net.Bytes.{IsByte}
use zstack_ovn_kubernetes.Allocator.Subnet.{
  SubnetAllocator, allocate_next, allocate, release, is_allocated,
}
use zstack_ovn_kubernetes.Allocator.Subnet.Errors.{Outcome, ok, err, panic, running}
use zstack_ovn_kubernetes.Allocator.Subnet.Valid.{IsValid, index_four}
use zstack_ovn_kubernetes.Allocator.Subnet.Allocate.{
  same_address, AllocateNextOutcome, allocate_next-AllocateNextOutcome,
}
use zstack_ovn_kubernetes.Allocator.Subnet.Release.{
  held, AllocateOutcome, allocate-AllocateOutcome, ReleaseOutcome, release-ReleaseOutcome,
}

pub data Call : Type 0 where
  takes_next : Call
  takes gives : Ip → Call

-- The addresses that a release leaves with their holders.
pub keep_others : Ip → List Ip → List Ip
keep_others ip [] = []
keep_others ip (p ∷ ps) =
    let rest = keep_others ip ps in if same_address ip p then rest else p ∷ rest

abbrev next_state :
    SubnetAllocator × List Ip → Outcome (SubnetAllocator × Ip) → SubnetAllocator × List Ip
next_state (a, out) (ok (b, ip)) = (b, ip ∷ out)
next_state s _ = s

abbrev taken_state :
    SubnetAllocator × List Ip → Ip → Outcome SubnetAllocator → SubnetAllocator × List Ip
taken_state (a, out) ip (ok b) = (b, ip ∷ out)
taken_state s ip _ = s

abbrev given_state :
    SubnetAllocator × List Ip → Ip → Outcome SubnetAllocator → SubnetAllocator × List Ip
given_state (a, out) ip (ok b) = (b, keep_others ip out)
given_state s ip _ = s

-- The allocator and the held addresses; a failed call changes nothing.
pub step : SubnetAllocator × List Ip → Call → SubnetAllocator × List Ip
step (a, out) takes_next = next_state (a, out) (allocate_next a)
step (a, out) (takes ip) = taken_state (a, out) ip (allocate a ip)
step (a, out) (gives ip) = given_state (a, out) ip (release a ip)

pub run : SubnetAllocator × List Ip → List Call → SubnetAllocator × List Ip
run s [] = s
run s (c ∷ cs) = run (step s c) cs

-- Any two of the addresses differ.
abbrev pub Apart : List Ip → Type 0
Apart [] = Unit
Apart (p ∷ ps) = All (λ q. same_address p q ≡ false) ps × Apart ps

-- The addresses of a call are made of bytes.
abbrev pub IsCall : Call → Type 0
IsCall takes_next = Unit
IsCall (takes ip) = All IsByte (to4 ip)
IsCall (gives ip) = All IsByte (to4 ip)

pub record Sound (s : SubnetAllocator × List Ip) : Type 0 where
  pub valid : IsValid s.0
  pub owned : All (λ p. held s.0 p ≡ true) s.1
  pub apart : Apart s.1

held_same :
    {a : SubnetAllocator} (v : IsValid a) (p q : Ip)
    → is_nil (to4 p) ≡ false
    → same_address p q ≡ true
    → held a p ≡ held a q
unfolding is_allocated
held_same {a} v p q n same =
    let m : is_nil (to4 q) ≡ false = ground arith in
    let e : value (to4 p) ≡ value (to4 q) = ground arith in
    ground (arith, index_four v p n, index_four v q m)

-- A new address differs from all that are held.
pub fresh_apart :
    {a : SubnetAllocator} (v : IsValid a) (p : Ip) (out : List Ip)
    → is_nil (to4 p) ≡ false
    → held a p ≡ false
    → All (λ q. held a q ≡ true) out
    → All (λ q. same_address p q ≡ false) out
fresh_apart v p [] n h own = tt
fresh_apart {a} v p (q ∷ out) n h own = (
  elim (Bool-cases (same_address p q)) [
    | inl same ↦ absurd (ground (arith, held_same v p q n same, own.0))
    | inr other ↦ other
  ],
  fresh_apart v p out n h own.1,
)

still_owned :
    (a b : SubnetAllocator) (p : Ip) (out : List Ip)
    → ((q : Ip) → is_allocated b q ≡ (if same_address p q then ok true else is_allocated a q))
    → All (λ q. held a q ≡ true) out
    → All (λ q. held b q ≡ true) out
still_owned a b p [] view own = tt
still_owned a b p (q ∷ out) view own =
    (ground (arith, view q, own.0), still_owned a b p out view own.1)

others_owned :
    (a b : SubnetAllocator) (p : Ip) (out : List Ip)
    → ((q : Ip) → is_allocated b q ≡ (if same_address p q then ok false else is_allocated a q))
    → All (λ q. held a q ≡ true) out
    → All (λ q. held b q ≡ true) (keep_others p out)
unfolding keep_others
others_owned a b p [] view own = tt
others_owned a b p (q ∷ out) view own = elim (Bool-cases (same_address p q)) [
  | inl same ↦ rw (same, keep_others) (others_owned a b p out view own.1)
  | inr other ↦
      rw (other, keep_others) (ground (arith, view q, own.0), others_owned a b p out view own.1)
]

others_apart_from :
    (p r : Ip) (out : List Ip)
    → All (λ q. same_address r q ≡ false) out
    → All (λ q. same_address r q ≡ false) (keep_others p out)
unfolding keep_others
others_apart_from p r [] h = tt
others_apart_from p r (q ∷ out) h = elim (Bool-cases (same_address p q)) [
  | inl same ↦ rw (same, keep_others) (others_apart_from p r out h.1)
  | inr other ↦ rw (other, keep_others) (h.0, others_apart_from p r out h.1)
]

others-Apart : (p : Ip) (out : List Ip) → Apart out → Apart (keep_others p out)
unfolding keep_others
others-Apart p [] h = tt
others-Apart p (q ∷ out) h = elim (Bool-cases (same_address p q)) [
  | inl same ↦ rw (same, keep_others) (others-Apart p out h.1)
  | inr other ↦ rw (other, keep_others) (others_apart_from p q out h.0, others-Apart p out h.1)
]

module _ (a : SubnetAllocator) (out : List Ip) (h : Sound (a, out)) where
  next-Sound :
      (r : Outcome (SubnetAllocator × Ip)) → AllocateNextOutcome a r → Sound (next_state (a, out) r)
  next-Sound (ok (b, ip)) o = record {
    valid = o.1;
    owned = (ground (arith, o.0, o.8 ip), still_owned a b ip out o.8 h.owned);
    apart = (fresh_apart h.valid ip out o.0 (ground (arith, o.5)) h.owned, h.apart);
  }
  next-Sound (err e) o = h
  next-Sound panic o = h
  next-Sound running o = h

  taken-Sound :
      (ip : Ip) (r : Outcome SubnetAllocator)
      → AllocateOutcome a ip r
      → Sound (taken_state (a, out) ip r)
  taken-Sound ip (ok b) o = record {
    valid = o.2;
    owned = (ground (arith, o.0, o.4 ip), still_owned a b ip out o.4 h.owned);
    apart = (fresh_apart h.valid ip out (ground (arith, o.0)) o.1 h.owned, h.apart);
  }
  taken-Sound ip (err e) o = h
  taken-Sound ip panic o = h
  taken-Sound ip running o = h

  given-Sound :
      (ip : Ip) (r : Outcome SubnetAllocator)
      → ReleaseOutcome a ip r
      → Sound (given_state (a, out) ip r)
  given-Sound ip (ok b) o = record {
    valid = o.2;
    owned = others_owned a b ip out o.4 h.owned;
    apart = others-Apart ip out h.apart;
  }
  given-Sound ip (err e) o = h
  given-Sound ip panic o = h
  given-Sound ip running o = h

  step-Sound : (c : Call) → IsCall c → Sound (step (a, out) c)
  unfolding step
  step-Sound takes_next k = next-Sound (allocate_next a) (allocate_next-AllocateNextOutcome h.valid)
  step-Sound (takes ip) k = taken-Sound ip (allocate a ip) (allocate-AllocateOutcome h.valid ip)
  step-Sound (gives ip) k = given-Sound ip (release a ip) (release-ReleaseOutcome h.valid ip k)

-- From a sound start, over any history of calls with addresses of bytes, the allocator stays valid,
-- every held address is marked as allocated, and no address is held twice.
pub run-Sound :
    (a : SubnetAllocator) (out : List Ip) (cs : List Call)
    → Sound (a, out)
    → All IsCall cs
    → Sound (run (a, out) cs)
unfolding run
run-Sound a out [] h k = h
run-Sound a out (c ∷ cs) h k =
    let s = step (a, out) c in run-Sound s.0 s.1 cs (step-Sound a out h c k.0) k.1
