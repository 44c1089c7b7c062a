-- ===== src/Ovn/Pod/Booked.antt =====
-- pkg/ovn/pod_controller.go: the addresses that podAllocations records, and the allocator they are from.
use zstack_ovn_kubernetes.Base.{
  ◌≡◌, ◌⊎◌, ℕ, ◌+◌, ◌%◌, ◌^◌, ℤ, pos, negsuc, refl, ◌∙◌, Bool, true, false, List, [], ◌∷◌,
  if◌then◌else◌, Text, text_eq, some, arith, All, Bool-cases, inl, inr, subst,
}
use zstack_ovn_kubernetes.Base.Dict.{Dict, lookup, insert, delete}
use zstack_ovn_kubernetes.Net.Ip.{Ip, to4, is_nil}
use zstack_ovn_kubernetes.Net.Bytes.{IsByte}
use zstack_ovn_kubernetes.Allocator.Subnet.{
  SubnetAllocator, allocate_next, is_allocated, index_to_ip, int_to_ip, ip_to_int,
}
use zstack_ovn_kubernetes.Allocator.Subnet.Errors.{
  Outcome, ok, err, panic, running, ◌>>=◌, lift_bitmap, subnet_exhausted,
}
use zstack_ovn_kubernetes.Allocator.Bitmap.{Bitmap, find_first_clear, set_bit}
use zstack_ovn_kubernetes.Allocator.Subnet.Valid.{IsValid}
use zstack_ovn_kubernetes.Allocator.Subnet.Index.{int_to_ip-bytes}
use zstack_ovn_kubernetes.Allocator.Subnet.Allocate.{same_address, AllocateNextOutcome}
use zstack_ovn_kubernetes.Allocator.Subnet.Release.{held, ReleaseOutcome}
use zstack_ovn_kubernetes.Allocator.Subnet.History.{Apart, fresh_apart}

abbrev pub addresses : Dict Ip → List Ip
addresses [] = []
addresses ((k, p) ∷ m) = p ∷ addresses m

-- An IPv4 address.
abbrev pub Proper : Ip → Type 0
Proper p = (is_nil (to4 p) ≡ false) × All IsByte (to4 p)

-- Every recorded address is taken in the allocator, and no two of them are the same.
pub record Booked (a : SubnetAllocator) (m : Dict Ip) : Type 0 where
  pub valid : IsValid a
  pub owned : All (λ p. held a p ≡ true) (addresses m)
  pub apart : Apart (addresses m)
  pub proper : All Proper (addresses m)

-- A pair that is found stands first, or later.
lookup_cons :
    (k j : Text) (p q : Ip) (m : Dict Ip)
    → lookup k ((j, q) ∷ m) ≡ some p
    → ((text_eq j k ≡ true) × (q ≡ p)) ⊎ ((text_eq j k ≡ false) × (lookup k m ≡ some p))
unfolding lookup
lookup_cons k j p q m e = elim (Bool-cases (text_eq j k)) [
  | inl same ↦ inl (same, ground arith)
  | inr other ↦ inr (other, ground arith)
]

module _ (P : Ip → Type 0) where
  All-insert :
      (k : Text) (p : Ip) (m : Dict Ip)
      → P p
      → All P (addresses m)
      → All P (addresses (insert k p m))
  unfolding insert
  All-insert k p [] h hs = (h, tt)
  All-insert k p ((j, q) ∷ m) h hs = elim (Bool-cases (text_eq j k)) [
    | inl same ↦ rw same (h, hs.1)
    | inr other ↦ rw other (hs.0, All-insert k p m h hs.1)
  ]

  All-delete : (k : Text) (m : Dict Ip) → All P (addresses m) → All P (addresses (delete k m))
  unfolding delete
  All-delete k [] hs = tt
  All-delete k ((j, q) ∷ m) hs = elim (Bool-cases (text_eq j k)) [
    | inl same ↦ rw same (All-delete k m hs.1)
    | inr other ↦ rw other (hs.0, All-delete k m hs.1)
  ]

  All-lookup : (k : Text) (p : Ip) (m : Dict Ip) → All P (addresses m) → lookup k m ≡ some p → P p
  unfolding lookup
  All-lookup k p [] hs e = absurd cc
  All-lookup k p ((j, q) ∷ m) hs e = elim (lookup_cons k j p q m e) [
    | inl (same, is) ↦ subst P is hs.0
    | inr (other, later) ↦ All-lookup k p m hs.1 later
  ]

Apart-insert :
    (k : Text) (p : Ip) (m : Dict Ip)
    → All (λ q. same_address q p ≡ false) (addresses m)
    → All (λ q. same_address p q ≡ false) (addresses m)
    → Apart (addresses m)
    → Apart (addresses (insert k p m))
unfolding insert
Apart-insert k p [] to from h = (tt, tt)
Apart-insert k p ((j, q) ∷ m) to from h = elim (Bool-cases (text_eq j k)) [
  | inl same ↦ rw same (from.1, h.1)
  | inr other ↦ rw other (
    All-insert (λ r. same_address q r ≡ false) k p m to.0 h.0,
    Apart-insert k p m to.1 from.1 h.1,
  )
]

Apart-delete : (k : Text) (m : Dict Ip) → Apart (addresses m) → Apart (addresses (delete k m))
unfolding delete
Apart-delete k [] h = tt
Apart-delete k ((j, q) ∷ m) h = elim (Bool-cases (text_eq j k)) [
  | inl same ↦ rw same (Apart-delete k m h.1)
  | inr other ↦ rw other (All-delete (λ r. same_address q r ≡ false) k m h.0, Apart-delete k m h.1)
]

-- The address of a key differs from those of the other keys.
pub others_differ :
    (k : Text) (p : Ip) (m : Dict Ip)
    → lookup k m ≡ some p
    → All Proper (addresses m)
    → Apart (addresses m)
    → All (λ q. same_address p q ≡ false) (addresses (delete k m))
unfolding delete
others_differ k p [] e hs h = tt
others_differ k p ((j, q) ∷ m) e hs h = elim (lookup_cons k j p q m e) [
  | inl (same, is) ↦ rw same (
      All-delete (λ r. same_address p r ≡ false) k m
        (subst (λ x. All (λ r. same_address x r ≡ false) (addresses m)) is h.0))
  | inr (other, later) ↦ rw other (
    ground (
      arith,
      All-lookup (λ r. same_address q r ≡ false) k p m h.0 later,
      hs.0.0,
      All-lookup Proper k p m hs.1 later,
    ),
    others_differ k p m later hs.1 h.1,
  )
]

-- A list of addresses that are taken, none of which is the one that changes.
taken_later :
    (a b : SubnetAllocator) (p : Ip) (bit : Bool) (out : List Ip)
    → ((q : Ip) → is_allocated b q ≡ (if same_address p q then ok bit else is_allocated a q))
    → All (λ q. same_address p q ≡ false) out
    → All (λ q. held a q ≡ true) out
    → All (λ q. held b q ≡ true) out
taken_later a b p bit [] view other own = tt
taken_later a b p bit (q ∷ out) view other own =
    (ground (arith, view q, own.0, other.0), taken_later a b p bit out view other.1 own.1)

backwards :
    (p : Ip) (out : List Ip)
    → is_nil (to4 p) ≡ false
    → All Proper out
    → All (λ q. same_address p q ≡ false) out
    → All (λ q. same_address q p ≡ false) out
backwards p [] n hs h = tt
backwards p (q ∷ out) n hs h = (ground (arith, hs.0.0, h.0), backwards p out n hs.1 h.1)

pub next_Booked :
    (a b : SubnetAllocator) (k : Text) (p : Ip) (m : Dict Ip)
    → AllocateNextOutcome a (ok (b, p))
    → All IsByte (to4 p)
    → Booked a m
    → Booked b (insert k p m)
next_Booked a b k p m o bytes h =
    let fresh = fresh_apart h.valid p (addresses m) o.0 (ground (arith, o.5)) h.owned in
    record {
      valid = o.1;
      owned =
          All-insert (λ q. held b q ≡ true) k p m (ground (arith, o.0, o.8 p))
            (taken_later a b p true (addresses m) o.8 fresh h.owned);
      apart = Apart-insert k p m (backwards p (addresses m) o.0 h.proper fresh) fresh h.apart;
      proper = All-insert Proper k p m (o.0, bytes) h.proper;
    }

-- An address that AllocateNext grants comes from intToIP.
converted_bytes :
    (n i : ℕ) (p : Ip)
    → Outcome.ok (int_to_ip ((n + i % 2 ^ 32 + 1) % 2 ^ 32)) ≡ ok p
    → All IsByte (to4 p)
converted_bytes n i p e =
    subst (λ x. All IsByte (to4 x)) (cc) (int_to_ip-bytes ((n + i % 2 ^ 32 + 1) % 2 ^ 32))

index_to_ip-bytes :
    (a : SubnetAllocator) (i : ℕ) (p : Ip) → index_to_ip a i ≡ ok p → All IsByte (to4 p)
unfolding index_to_ip
index_to_ip-bytes a i p e = by_base (ip_to_int (to4 a.base_ip)) e
  where
    by_base :
        (r : Outcome ℕ)
        → (r >>= λ n. ok (int_to_ip ((n + i % 2 ^ 32 + 1) % 2 ^ 32))) ≡ ok p
        → All IsByte (to4 p)
    by_base (ok n) e = converted_bytes n i p e
    by_base (err x) e = absurd cc
    by_base panic e = absurd cc
    by_base running e = absurd cc

-- AllocateNext in two steps.
abbrev paired : SubnetAllocator → Ip → Outcome (SubnetAllocator × Ip)
paired c ip = ok (c, ip)

abbrev granted_at : SubnetAllocator → ℕ → Bitmap → Outcome (SubnetAllocator × Ip)
granted_at a i c = index_to_ip a i >>= paired (record a { bitmap = c })

abbrev searched : SubnetAllocator → ℤ → Outcome (SubnetAllocator × Ip)
searched a (negsuc n) = err (subnet_exhausted a.subnet)
searched a (pos i) = lift_bitmap (set_bit a.bitmap (pos i)) >>= granted_at a i

pub allocate_next-bytes :
    (a b : SubnetAllocator) (p : Ip) → allocate_next a ≡ ok (b, p) → All IsByte (to4 p)
unfolding allocate_next
allocate_next-bytes a b p e = by_search (find_first_clear a.bitmap) e
  where
    by_ip :
        (c : SubnetAllocator) (i : ℕ) (r : Outcome Ip)
        → index_to_ip a i ≡ r
        → (r >>= paired c) ≡ ok (b, p)
        → All IsByte (to4 p)
    by_ip c i (ok ip) is e = index_to_ip-bytes a i p (is ∙ cc)
    by_ip c i (err x) is e = absurd cc
    by_ip c i panic is e = absurd cc
    by_ip c i running is e = absurd cc

    by_set : (i : ℕ) (r : Outcome Bitmap) → (r >>= granted_at a i) ≡ ok (b, p) → All IsByte (to4 p)
    by_set i (ok c) e = by_ip (record a { bitmap = c }) i (index_to_ip a i) refl e
    by_set i (err x) e = absurd cc
    by_set i panic e = absurd cc
    by_set i running e = absurd cc

    by_search : (r : ℤ) → searched a r ≡ ok (b, p) → All IsByte (to4 p)
    by_search (negsuc n) e = absurd cc
    by_search (pos i) e = by_set i (lift_bitmap (set_bit a.bitmap (pos i))) e

pub cleanup_Booked :
    (a : SubnetAllocator) (k : Text) (m : Dict Ip) → Booked a m → Booked a (delete k m)
cleanup_Booked a k m h = record {
  valid = h.valid;
  owned = All-delete (λ q. held a q ≡ true) k m h.owned;
  apart = Apart-delete k m h.apart;
  proper = All-delete Proper k m h.proper;
}

pub release_Booked :
    (a b : SubnetAllocator) (k : Text) (p : Ip) (m : Dict Ip)
    → ReleaseOutcome a p (ok b)
    → All (λ q. same_address p q ≡ false) (addresses (delete k m))
    → Booked a m
    → Booked b (delete k m)
release_Booked a b k p m o other h = record {
  valid = o.2;
  owned =
      taken_later a b p false (addresses (delete k m)) o.4 other
        (All-delete (λ q. held a q ≡ true) k m h.owned);
  apart = Apart-delete k m h.apart;
  proper = All-delete Proper k m h.proper;
}

pub lookup-Proper :
    (a : SubnetAllocator) (k : Text) (p : Ip) (m : Dict Ip)
    → Booked a m
    → lookup k m ≡ some p
    → Proper p
lookup-Proper a k p m h e = All-lookup Proper k p m h.proper e
