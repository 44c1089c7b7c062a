-- ===== src/Allocator/Subnet/Index.antt =====
-- pkg/allocator/subnet_allocator.go: ipToIndex and indexToIP are inverse to each other.
use zstack_ovn_kubernetes.Base.{
  ℕ, ◌+◌, ◌/◌, ◌%◌, ◌^◌, ◌<◌, ◌≡◌, refl, sym, subst, ◌∙◌, ap, false, [], ◌∷◌, arith, All,
  Bool-cases, inl, inr, text_eq,
}
use zstack_ovn_kubernetes.Net.Ip.{Ip, to4, is_nil, value}
use zstack_ovn_kubernetes.Net.Bytes.{IsByte}
use zstack_ovn_kubernetes.Net.Util.{IsFour, to4-IsFour, split_four}
use zstack_ovn_kubernetes.Allocator.Subnet.{SubnetAllocator, int_to_ip, ip_to_index, index_to_ip}
use zstack_ovn_kubernetes.Allocator.Subnet.Errors.{ok}
use zstack_ovn_kubernetes.Allocator.Subnet.Valid.{
  IsValid, base, index_four, index_other, to4_of_four, int_four,
}

-- The shortest form of intToIP is the four bytes of the number.
pub to4-int_to_ip :
    (n : ℕ)
    → to4 (int_to_ip n)
      ≡ (n / 2 ^ 24 % 256) ∷ (n / 2 ^ 16 % 256) ∷ (n / 2 ^ 8 % 256) ∷ (n % 256) ∷ []
unfolding to4 int_to_ip text_eq
to4-int_to_ip n = refl

pub int_to_ip-not_nil : (n : ℕ) → is_nil (to4 (int_to_ip n)) ≡ false
int_to_ip-not_nil n = rw to4-int_to_ip

pub int_to_ip-bytes : (n : ℕ) → All IsByte (to4 (int_to_ip n))
int_to_ip-bytes n = rw to4-int_to_ip (omega arith)

pub value-int_to_ip : (n : ℕ) → n < 2 ^ 32 → value (to4 (int_to_ip n)) ≡ n
unfolding value
value-int_to_ip n h = rw to4-int_to_ip (omega arith)

-- A four-byte address is determined by its number.
pub int_to_ip-value : (q : Ip) → IsFour q → All IsByte q → to4 (int_to_ip (value q)) ≡ q
unfolding value
int_to_ip-value q h bytes =
    let (a, b, c, d, e) = split_four q h in
    let all : All IsByte (a ∷ b ∷ c ∷ d ∷ []) = subst (All IsByte) e bytes in
    rw (e, to4-int_to_ip) (ground arith)

-- Addresses of bytes with one number are one address.
pub same_four :
    (p q : Ip) → IsFour p → IsFour q → All IsByte p → All IsByte q → value p ≡ value q → p ≡ q
same_four p q hp hq bp bq e = sym (int_to_ip-value p hp bp) ∙ rw e (int_to_ip-value q hq bq)

module _ {a : SubnetAllocator} (v : IsValid a) where
  -- The address of an index.
  pub index_to_ip_lem : (i : ℕ) → i < a.size → index_to_ip a i ≡ ok (int_to_ip (base a + i + 1))
  unfolding index_to_ip
  index_to_ip_lem i h =
      rw (to4_of_four a.base_ip v.four, int_four v a.base_ip v.four)
        (ap (λ n. ok (int_to_ip n)) (omega (arith, v.fits, v.sized)))

  pub ip_to_index-int_to_ip :
      (i : ℕ) → i < a.size → ip_to_index a (int_to_ip (base a + i + 1)) ≡ ok i
  ip_to_index-int_to_ip i h =
      rw
        (
          index_four v (int_to_ip (base a + i + 1)) (int_to_ip-not_nil (base a + i + 1)),
          value-int_to_ip (base a + i + 1) (omega (arith, v.fits, v.sized)),
        )
        (ground (arith, v.sized))

  -- In a valid allocator every index in range has an address, which converts back to that index.
  pub ip_to_index-index_to_ip :
      (i : ℕ) → i < a.size → (ip : Ip) × (index_to_ip a i ≡ ok ip) × (ip_to_index a ip ≡ ok i)
  ip_to_index-index_to_ip i h =
      (int_to_ip (base a + i + 1), index_to_ip_lem i h, ip_to_index-int_to_ip i h)

  -- What a successful conversion says of the address.
  pub ip_to_index-value :
      (ip : Ip) (i : ℕ)
      → ip_to_index a ip ≡ ok i
      → (is_nil (to4 ip) ≡ false) × (value (to4 ip) ≡ base a + i + 1) × (i < a.size)
  ip_to_index-value ip i e = elim (Bool-cases (is_nil (to4 ip))) [
    | inl n ↦ absurd (ground (arith, index_other v ip n))
    | inr n ↦ (n, ground (arith, index_four v ip n), ground (arith, index_four v ip n, v.sized))
  ]

  -- In a valid allocator an address of bytes that has an index is, up to its 16-byte form, the address
  -- of that index.
  pub index_to_ip-ip_to_index :
      (ip : Ip) (i : ℕ)
      → All IsByte (to4 ip)
      → ip_to_index a ip ≡ ok i
      → (q : Ip) × (index_to_ip a i ≡ ok q) × (to4 q ≡ to4 ip)
  index_to_ip-ip_to_index ip i bytes e =
      let (n, val, h) = ip_to_index-value ip i e in
      (
        int_to_ip (base a + i + 1),
        index_to_ip_lem i h,
        rw (← val) (int_to_ip-value (to4 ip) (to4-IsFour ip n) bytes),
      )
