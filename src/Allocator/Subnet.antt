-- ===== src/Allocator/Subnet.antt =====
-- pkg/allocator/subnet_allocator.go and errors.go: SubnetAllocator and its methods. Each exported
-- method runs under the mutex, so it is one step on the record.
pub mod Errors
pub mod Exclude
pub mod Valid
pub mod Index
pub mod Allocate
pub mod Release
pub mod Excluding
pub mod Create
pub mod Ranges
pub mod Returns
pub mod Exclusions
pub mod History
pub mod Capacity
use zstack_ovn_kubernetes.Base.{
  is_some, ℕ, zero, suc, ◌+◌, ◌-◌, ◌*◌, ◌/◌, ◌%◌, ◌^◌, Bool, true, false, not, ◌||◌, List, [], ◌∷◌,
  ltb, leb, ◌==◌, if◌then◌else◌, Text, Option, none, some, ℤ, pos, negsuc,
}
use zstack_ovn_kubernetes.Base.Dict.{Dict, lookup, insert}
use zstack_ovn_kubernetes.Net.Ip.{
  Ip, IpNet, to4, to16, is_nil, ipv4, ip_equal, contains, value, hosts, to_bytes,
}
use zstack_ovn_kubernetes.Net.Parse.{parse_cidr}
use zstack_ovn_kubernetes.Net.Util.{increment}
use zstack_ovn_kubernetes.Allocator.Bitmap.{
  Bitmap, new_bitmap, set_bit, clear_bit, is_set, find_first_clear, available,
}
use zstack_ovn_kubernetes.Allocator.Bitmap
use Errors.{
  Outcome, ok, err, panic, Error, subnet_exhausted, ip_already_allocated, ip_out_of_range,
  invalid_cidr, subnet_too_small, excluded_ip, bitmap_error, ◌>>=◌, lift_bitmap,
}

-- `exclude_ips` is keyed by IP.String(), which is the same text for two addresses exactly when their
-- shortest forms are the same bytes; the key is that form.
pub record SubnetAllocator : Type 0 where
  pub subnet : IpNet
  pub bitmap : Bitmap
  pub exclude_ips : Dict (Unit {0})
  pub base_ip : Ip
  pub size : ℕ

abbrev pub shortest : Ip → Ip
shortest ip = if is_nil (to4 ip) then ip else to4 ip

-- ipToInt: indexing the nil result of To4 panics.
unfoldable pub ip_to_int : Ip → Outcome ℕ
ip_to_int ip = let ip4 = to4 ip in if is_nil ip4 then panic else ok (value ip4)

-- intToIP: the four bytes of the number.
unfoldable pub int_to_ip : ℕ → Ip
int_to_ip n = ipv4 (n / 2 ^ 24 % 256) (n / 2 ^ 16 % 256) (n / 2 ^ 8 % 256) (n % 256)

-- incrementIP: nil stays nil.
unfoldable pub increment_ip : Ip → Ip
increment_ip ip = let ip4 = to4 ip in if is_nil ip4 then [] else (increment ip4).0

-- ip = ip.To4(); if ip == nil { ip = ip.To16() }. After the assignment To16 sees the nil address.
abbrev pub normal : Ip → Ip
normal ip = let ip4 = to4 ip in if is_nil ip4 then to16 ip4 else ip4

-- The base address keeps its 16-byte form.
abbrev pub normal_base : Ip → Ip
normal_base ip = let ip4 = to4 ip in if is_nil ip4 then to16 ip else ip4

unfoldable pub ip_to_index : SubnetAllocator → Ip → Outcome ℕ
ip_to_index a ip =
    let ip' = normal ip in
    if not (contains a.subnet ip') then err (ip_out_of_range ip') else do
      n ← ip_to_int ip'
      base ← ip_to_int (normal_base a.base_ip)
      if leb n base || not (ltb (n - base - 1) a.size)
          then err (ip_out_of_range ip')
          else ok (n - base - 1)

-- uint32 arithmetic.
unfoldable pub index_to_ip : SubnetAllocator → ℕ → Outcome Ip
index_to_ip a index = do
  base ← ip_to_int (to4 a.base_ip)
  ok (int_to_ip ((base + index % 2 ^ 32 + 1) % 2 ^ 32))

-- excludeIP: an index that is already set stays set.
unfoldable pub exclude_ip : SubnetAllocator → Ip → Outcome SubnetAllocator
exclude_ip a ip = do
  index ← ip_to_index a ip
  ok (record a {
    exclude_ips = insert (shortest ip) tt a.exclude_ips;
    bitmap = Bitmap.after a.bitmap (set_bit a.bitmap (pos index));
  })

unfoldable pub allocate_next : SubnetAllocator → Outcome (SubnetAllocator × Ip)
allocate_next a = elim (find_first_clear a.bitmap) [
  | negsuc n ↦ err (subnet_exhausted a.subnet)
  | pos index ↦ do
    b ← lift_bitmap (set_bit a.bitmap (pos index))
    ip ← index_to_ip a index
    ok (record a { bitmap = b }, ip)
]

unfoldable pub allocate : SubnetAllocator → Ip → Outcome SubnetAllocator
allocate a ip = do
  index ← ip_to_index a ip
  if is_set a.bitmap (pos index)
      then err (ip_already_allocated ip)
      else do b ← lift_bitmap (set_bit a.bitmap (pos index)); ok (record a { bitmap = b })

-- _, excluded := a.excludeIPs[ip.String()].
abbrev pub is_excluded : SubnetAllocator → Ip → Bool
is_excluded a ip = is_some (lookup (shortest ip) a.exclude_ips)

unfoldable pub release : SubnetAllocator → Ip → Outcome SubnetAllocator
release a ip = if is_excluded a ip then err (excluded_ip ip) else do
  index ← ip_to_index a ip
  b ← lift_bitmap (clear_bit a.bitmap (pos index))
  ok (record a { bitmap = b })

-- A failed conversion means "not allocated"; a panic stays one.
unfoldable pub is_allocated : SubnetAllocator → Ip → Outcome Bool
is_allocated a ip = elim (ip_to_index a ip) [
  | ok index ↦ ok (is_set a.bitmap (pos index))
  | err e ↦ ok false
  | panic ↦ panic
  | Outcome.running ↦ Outcome.running
]

unfoldable pub free : SubnetAllocator → ℕ
free a = available a.bitmap

unfoldable pub used : SubnetAllocator → ℕ
used a = a.bitmap.allocated
