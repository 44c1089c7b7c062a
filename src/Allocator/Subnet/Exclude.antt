-- ===== src/Allocator/Subnet/Exclude.antt =====
-- pkg/allocator/subnet_allocator.go: parseAndExclude and NewSubnetAllocator. The loop over a range
-- takes a number of rounds, and answers `running` where they do not suffice.
use zstack_ovn_kubernetes.Base.{
  ℕ, zero, suc, ◌+◌, ◌-◌, ◌%◌, ◌^◌, true, false, ◌||◌, List, [], ◌∷◌, leb, ◌==◌, if◌then◌else◌,
  Text, none, some, contains_byte, split, trim_space,
}
use zstack_ovn_kubernetes.Net.Ip.{Ip, IpNet, is_nil, ip_equal, mask, hosts}
use zstack_ovn_kubernetes.Net.Parse.{parse_ip, parse_cidr}
use zstack_ovn_kubernetes.Allocator.Bitmap.{new_bitmap}
use zstack_ovn_kubernetes.Allocator.Subnet.{SubnetAllocator, exclude_ip, increment_ip}
use zstack_ovn_kubernetes.Allocator.Subnet.Errors.{
  Outcome, ok, err, panic, running, invalid_cidr, subnet_too_small, invalid_exclude, ◌>>=◌,
}

-- An address outside the subnet is passed over; a panic is not.
abbrev pub or_skip : SubnetAllocator → Outcome SubnetAllocator → Outcome SubnetAllocator
or_skip a (ok b) = ok b
or_skip a (err e) = ok a
or_skip a panic = panic
or_skip a running = running

-- for ip := startIP; !ip.Equal(incrementIP(endIP)); ip = incrementIP(ip) { … }
unfoldable pub exclude_range : ℕ → SubnetAllocator → Ip → Ip → Outcome SubnetAllocator
exclude_range zero a ip stop = running
exclude_range (suc rounds) a ip stop = elim (ip_equal ip stop) [
  | true ↦ ok a
  | false ↦ or_skip a (exclude_ip a ip) >>= λ b. exclude_range rounds b (increment_ip ip) stop
]

unfoldable pub exclude_parts : ℕ → SubnetAllocator → Text → List Text → Outcome SubnetAllocator
unfolding exclude_range
exclude_parts rounds a spec (p ∷ q ∷ []) =
    let start = parse_ip (trim_space p) in
    let end = parse_ip (trim_space q) in
    if is_nil start || is_nil end
    then err (invalid_exclude spec)
    else exclude_range rounds a start (increment_ip end)
exclude_parts rounds a spec parts = err (invalid_exclude spec)

unfoldable pub parse_and_exclude : ℕ → SubnetAllocator → Text → Outcome SubnetAllocator
unfolding exclude_parts
parse_and_exclude rounds a spec =
    let ip = parse_ip (trim_space spec) in
    if contains_byte b'-' spec
    then exclude_parts rounds a spec (split spec b'-')
    else if is_nil ip
    then err (invalid_exclude spec)
    else or_skip a (exclude_ip a ip)

unfoldable pub exclude_all : ℕ → SubnetAllocator → List Text → Outcome SubnetAllocator
exclude_all rounds a [] = ok a
exclude_all rounds a (spec ∷ specs) = do
  b ← parse_and_exclude rounds a spec
  exclude_all rounds b specs

-- totalIPs - 2 in a 64-bit int, as its bit pattern; a pattern from 2 ^ 63 on is a negative number.
abbrev pub usable_word : IpNet → ℕ
usable_word n = (hosts n % 2 ^ 64 + 2 ^ 64 - 2) % 2 ^ 64

-- The allocator before the exclusions.
abbrev pub bare_allocator : IpNet → SubnetAllocator
bare_allocator n = record {
  subnet = n;
  bitmap = new_bitmap (usable_word n);
  exclude_ips = [];
  base_ip = mask (n.bits - n.ones) n.ip;
  size = usable_word n;
}

-- (size + 7) / 8 overflows at the last seven sizes, and make panics at a negative length.
unfoldable pub allocator_of : IpNet → Text → Outcome SubnetAllocator
allocator_of n cidr =
    if (usable_word n == 0) || leb (2 ^ 63) (usable_word n)
    then err (subnet_too_small cidr)
    else if leb (2 ^ 63) (usable_word n + 7)
    then panic
    else ok (bare_allocator n)

abbrev net_part : Ip × IpNet → IpNet
net_part (ip, n) = n

unfoldable pub new_subnet_allocator : ℕ → Text → List Text → Outcome SubnetAllocator
unfolding exclude_all
new_subnet_allocator rounds cidr excludes = elim (parse_cidr cidr) [
  | none ↦ err (invalid_cidr cidr)
  | some r ↦ do a ← allocator_of (net_part r) cidr; exclude_all rounds a excludes
]
