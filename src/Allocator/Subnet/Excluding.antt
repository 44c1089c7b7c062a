-- ===== src/Allocator/Subnet/Excluding.antt =====
-- pkg/allocator/subnet_allocator.go: excludeIP and parseAndExclude keep the invariant.
use zstack_ovn_kubernetes.Base.{
  is_some, ℕ, zero, suc, ◌<◌, ◌≡◌, refl, sym, ◌∙◌, ap, true, false, ◌||◌, List, [], ◌∷◌, ◌==◌,
  if◌then◌else◌, arith, All, Bool-cases, inl, inr, ℤ, pos, negsuc, text_eq, text_eq_iff, Text,
  contains_byte, split, trim_space,
}
use zstack_ovn_kubernetes.Base.Dict.{lookup, insert, lookup-insert}
use zstack_ovn_kubernetes.Net.Ip.{Ip, to4, is_nil, ip_equal}
use zstack_ovn_kubernetes.Net.Parse.{parse_ip}
use zstack_ovn_kubernetes.Net.Bytes.{IsByte}
use zstack_ovn_kubernetes.Net.Util.{to4-IsFour}
use zstack_ovn_kubernetes.Allocator.Bitmap.{Bitmap, test_bit, set_bit, is_set, new_bitmap}
use zstack_ovn_kubernetes.Allocator.Bitmap
use zstack_ovn_kubernetes.Allocator.Bitmap.Invariant
use zstack_ovn_kubernetes.Allocator.Bitmap.Refinement.{SetOutcome, same_index, set_bit-SetOutcome}
use zstack_ovn_kubernetes.Allocator.Subnet.{
  SubnetAllocator, ip_to_index, exclude_ip, increment_ip, is_excluded, shortest,
}
use zstack_ovn_kubernetes.Allocator.Subnet.Errors.{Outcome, ok, err, panic, running, ◌>>=◌}
use zstack_ovn_kubernetes.Allocator.Subnet.Valid.{IsValid, index_four, to4_of_four}
use zstack_ovn_kubernetes.Allocator.Subnet.Index.{ip_to_index-value}
use zstack_ovn_kubernetes.Allocator.Subnet.Exclude.{
  or_skip, exclude_range, exclude_parts, parse_and_exclude, exclude_all,
}

-- Two addresses with one key, one of them IPv4, are one IPv4 address.
shortest_same :
    (p q : Ip)
    → is_nil (to4 p) ≡ false
    → shortest p ≡ shortest q
    → (is_nil (to4 q) ≡ false) × (to4 q ≡ to4 p)
shortest_same p q n e = elim (Bool-cases (is_nil (to4 q))) [
  | inl m ↦
      let whole : to4 p ≡ q = rw (n, m) at e in
      let four : to4 q ≡ q = to4_of_four q (rw (← whole) (to4-IsFour p n)) in
      absurd (ground (arith, n, m, ap is_nil whole, ap is_nil four))
  | inr m ↦ (m, sym (rw (n, m) at e))
]

same_index_of :
    {a : SubnetAllocator} (v : IsValid a) (p q : Ip) (i : ℕ)
    → ip_to_index a p ≡ ok i
    → shortest p ≡ shortest q
    → ip_to_index a q ≡ ok i
same_index_of {a} v p q i e s =
    let (n, _, _) = ip_to_index-value v p i e in
    let (m, same) = shortest_same p q n s in
    (index_four v q m ∙ rw same (sym (index_four v p n))) ∙ e

-- Setting a bit that may be set already.
after_set :
    (b : Bitmap) (i : ℕ) (r : Bitmap.Result Bitmap)
    → Invariant.IsValid b
    → i < b.size
    → SetOutcome b (pos i) r
    → Invariant.IsValid (Bitmap.after b r)
      × ((Bitmap.after b r).size ≡ b.size)
      × ((j : ℤ)
          → is_set (Bitmap.after b r) j ≡ (if same_index (pos i) j then true else is_set b j))
after_set b i (Bitmap.ok c) v h out = (out.2, out.3, out.5)
after_set b i (Bitmap.err (Bitmap.out_of_range k n)) v h out = absurd (out.2 h)
after_set b i (Bitmap.err (Bitmap.already_set k)) v h out = (v, refl, same b i k out)
  where
    same :
        (b : Bitmap) (i k : ℕ)
        → SetOutcome b (pos i) (Bitmap.err (Bitmap.already_set k))
        → (j : ℤ) → is_set b j ≡ (if same_index (pos i) j then true else is_set b j)
    same b i k out (pos j) = elim (Bool-cases (i == j)) [
      | inl e ↦ (let e' : i ≡ j = ground arith in rw e (rw (← e') out.2))
      | inr e ↦ rw e
    ]
    same b i k out (negsuc n) = refl

module _ {a : SubnetAllocator} (v : IsValid a) where
  excluded_after :
      (ip p : Ip) (i : ℕ) (b : Bitmap)
      → ip_to_index a ip ≡ ok i
      → ((j : ℤ) → is_set b j ≡ (if same_index (pos i) j then true else is_set a.bitmap j))
      → All IsByte (to4 p)
      → is_some (lookup (shortest p) (insert (shortest ip) tt a.exclude_ips)) ≡ true
      → (j : ℕ) × (ip_to_index a p ≡ ok j) × (is_set b (pos j) ≡ true)
  excluded_after ip p i b e view bytes h = elim (Bool-cases (text_eq (shortest ip) (shortest p))) [
    | inl same ↦ (
      i,
      same_index_of v ip p i e ((text_eq_iff (shortest ip) (shortest p)).0 same),
      ground (arith, view (pos i)),
    )
    | inr other ↦
        let old : is_excluded a p ≡ true =
          ground (arith, lookup-insert (shortest ip) (shortest p) tt a.exclude_ips) in
        let (j, f, set) = v.excluded p bytes old in (j, f, ground (arith, view (pos j)))
  ]

  -- Marking an index as excluded keeps the invariant.
  exclude_index-IsValid :
      (ip : Ip) (i : ℕ)
      → ip_to_index a ip ≡ ok i
      → IsValid (record a {
        exclude_ips = insert (shortest ip) tt a.exclude_ips;
        bitmap = Bitmap.after a.bitmap (set_bit a.bitmap (pos i));
      })
  unfolding ip_to_index
  exclude_index-IsValid ip i e =
      let (_, _, h) = ip_to_index-value v ip i e in
      let (valid, size, view) =
        after_set a.bitmap i (set_bit a.bitmap (pos i)) v.bitmap (omega (arith, v.bitmap_size))
          (set_bit-SetOutcome a.bitmap v.bitmap (pos i)) in
      record {
        network = v.network;
        four = v.four;
        aligned = v.aligned;
        fits = v.fits;
        sized = v.sized;
        bitmap = valid;
        bitmap_size = size ∙ v.bitmap_size;
        excluded = λ p bytes k. excluded_after ip p i _ e view bytes k;
      }

-- A successful result keeps the invariant.
abbrev pub Keeps : Outcome SubnetAllocator → Type 0
Keeps (ok b) = IsValid b
Keeps (err e) = Unit
Keeps panic = Unit
Keeps running = Unit

pub exclude_ip-Keeps : {a : SubnetAllocator} (v : IsValid a) (ip : Ip) → Keeps (exclude_ip a ip)
unfolding exclude_ip
exclude_ip-Keeps {a} v ip = go (ip_to_index a ip) refl
  where
    go : (r : Outcome ℕ) → ip_to_index a ip ≡ r → Keeps (exclude_ip a ip)
    go (ok i) e = rw (e, exclude_ip) (exclude_index-IsValid v ip i e)
    go (err x) e = rw (e, exclude_ip) tt
    go panic e = rw (e, exclude_ip) tt
    go running e = rw (e, exclude_ip) tt

or_skip-Keeps :
    {a : SubnetAllocator} (v : IsValid a) (r : Outcome SubnetAllocator)
    → Keeps r
    → Keeps (or_skip a r)
or_skip-Keeps v (ok b) k = k
or_skip-Keeps v (err e) k = v
or_skip-Keeps v panic k = tt
or_skip-Keeps v running k = tt

pub >>=-Keeps :
    (r : Outcome SubnetAllocator) (f : SubnetAllocator → Outcome SubnetAllocator)
    → Keeps r
    → ((b : SubnetAllocator) → IsValid b → Keeps (f b))
    → Keeps (r >>= f)
>>=-Keeps (ok b) f k h = h b k
>>=-Keeps (err e) f k h = tt
>>=-Keeps panic f k h = tt
>>=-Keeps running f k h = tt

exclude_range-Keeps :
    (rounds : ℕ) (a : SubnetAllocator) (ip stop : Ip)
    → IsValid a
    → Keeps (exclude_range rounds a ip stop)
unfolding exclude_range
exclude_range-Keeps zero a ip stop v = tt
exclude_range-Keeps (suc rounds) a ip stop v = elim (Bool-cases (ip_equal ip stop)) [
  | inl done ↦ rw (done, exclude_range) v
  | inr more ↦
      rw (more, exclude_range)
        (>>=-Keeps (or_skip a (exclude_ip a ip)) _
          (or_skip-Keeps v (exclude_ip a ip) (exclude_ip-Keeps v ip))
          (λ b w. exclude_range-Keeps rounds b (increment_ip ip) stop w))
]

exclude_parts-Keeps :
    (rounds : ℕ) (a : SubnetAllocator) (spec : Text) (parts : List Text)
    → IsValid a
    → Keeps (exclude_parts rounds a spec parts)
unfolding exclude_parts
exclude_parts-Keeps rounds a spec [] v = tt
exclude_parts-Keeps rounds a spec (p ∷ []) v = tt
exclude_parts-Keeps rounds a spec (p ∷ q ∷ []) v =
    elim (Bool-cases (is_nil (parse_ip (trim_space p)) || is_nil (parse_ip (trim_space q)))) [
      | inl bad ↦ rw bad tt
      | inr good ↦ rw good (
          exclude_range-Keeps rounds a (parse_ip (trim_space p))
            (increment_ip (parse_ip (trim_space q))) v)
    ]
exclude_parts-Keeps rounds a spec (p ∷ q ∷ r ∷ parts) v = tt

parse_and_exclude-Keeps :
    (rounds : ℕ) (a : SubnetAllocator) (spec : Text)
    → IsValid a
    → Keeps (parse_and_exclude rounds a spec)
unfolding parse_and_exclude
parse_and_exclude-Keeps rounds a spec v = elim (Bool-cases (contains_byte b'-' spec)) [
  | inl range ↦ rw range (exclude_parts-Keeps rounds a spec (split spec b'-') v)
  | inr single ↦ elim (Bool-cases (is_nil (parse_ip (trim_space spec)))) [
    | inl bad ↦ rw (single, bad) tt
    | inr good ↦ rw (single, good) (or_skip-Keeps v _ (exclude_ip-Keeps v _))
  ]
]

pub exclude_all-Keeps :
    (rounds : ℕ) (a : SubnetAllocator) (specs : List Text)
    → IsValid a
    → Keeps (exclude_all rounds a specs)
unfolding exclude_all
exclude_all-Keeps rounds a [] v = v
exclude_all-Keeps rounds a (spec ∷ specs) v =
    >>=-Keeps (parse_and_exclude rounds a spec) _ (parse_and_exclude-Keeps rounds a spec v)
      (λ b w. exclude_all-Keeps rounds b specs w)
