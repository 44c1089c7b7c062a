-- ===== src/Allocator/Examples.antt =====
-- Tests and concrete instances for pkg/allocator.
use zstack_ovn_kubernetes.Base.{
  ◌+◌, ◌-◌, ◌%◌, ◌^◌, ◌<◌, ◌≡◌, ◌↔◌, inl, refl, true, false, List, [], ◌∷◌, ◌++◌, arith, All, Text,
  codes, some, pos, negsuc, text_eq, split, trim_space, contains_byte,
}
use zstack_ovn_kubernetes.Base.Dict.{lookup, insert}
use zstack_ovn_kubernetes.Net.Ip.{
  Ip, IpNet, mapped_prefix, ipv4, to4, to16, ip_equal, mask, hosts, contains, is_nil, value,
}
use zstack_ovn_kubernetes.Net.Parse.{parse_ip, parse_cidr, parse_ipv4_fields}
use zstack_ovn_kubernetes.Net.Util.{increment}
use zstack_ovn_kubernetes.Allocator.Bitmap
use zstack_ovn_kubernetes.Allocator.Bitmap.{
  Bitmap, new_bitmap, set_bit, is_set, find_first_clear, scan, test_bit, or_bit, available,
}
use zstack_ovn_kubernetes.Allocator.Bitmap.Invariant
use zstack_ovn_kubernetes.Allocator.Bitmap.Search.{FirstClear, find_first_clear-available}
use zstack_ovn_kubernetes.Allocator.Bitmap.Refinement.{
  SetOutcome, ClearOutcome, set_bit-SetOutcome, clear_bit-ClearOutcome, new_bitmap-empty,
}
use zstack_ovn_kubernetes.Allocator.Subnet.{
  is_excluded, SubnetAllocator, allocate_next, allocate, release, exclude_ip, increment_ip,
  ip_to_index, index_to_ip, ip_to_int, int_to_ip,
}
use zstack_ovn_kubernetes.Net.Bytes.{IsByte}
use zstack_ovn_kubernetes.Allocator.Subnet.Index.{ip_to_index-index_to_ip, index_to_ip-ip_to_index}
use zstack_ovn_kubernetes.Allocator.Subnet.Errors.{ok, err, running, excluded_ip}
use zstack_ovn_kubernetes.Allocator.Subnet.Exclude.{
  new_subnet_allocator, allocator_of, parse_and_exclude, exclude_parts,
}
use zstack_ovn_kubernetes.Allocator.Subnet.Valid.{IsValid}
use zstack_ovn_kubernetes.Allocator.Subnet.Create.{new_subnet_allocator-IsValid}
use zstack_ovn_kubernetes.Allocator.Subnet.Allocate.{
  AllocateNextOutcome, allocate_next-AllocateNextOutcome,
}
use zstack_ovn_kubernetes.Allocator.Subnet.Release.{
  AllocateOutcome, allocate-AllocateOutcome, ReleaseOutcome, release-ReleaseOutcome,
}
use zstack_ovn_kubernetes.Allocator.Subnet.History.{
  Sound, Call, takes_next, takes, gives, run, run-Sound,
}
use zstack_ovn_kubernetes.Allocator.Subnet.Ranges.{exclude_parts_mixed}
use zstack_ovn_kubernetes.Allocator.Subnet.Exclusions.{new_subnet_allocator-excluded}
use zstack_ovn_kubernetes.Allocator.Subnet.Returns.{Returns, exclude_parts-Returns}

-- Ten bits, of which 0 and 9 are set.
abbrev two_set : Bitmap
two_set = record { bits = 1 ∷ 2 ∷ []; size = 10; allocated = 2 }

two_set-IsValid : Invariant.IsValid two_set
unfolding Invariant.count test_bit
two_set-IsValid = record { bytes = omega arith; room = refl; counted = refl }

set_bit-SetOutcome_example : SetOutcome two_set (pos 4) (set_bit two_set (pos 4))
set_bit-SetOutcome_example = set_bit-SetOutcome two_set two_set-IsValid (pos 4)

clear_bit-ClearOutcome_example : ClearOutcome two_set (pos 9) (Bitmap.clear_bit two_set (pos 9))
clear_bit-ClearOutcome_example = clear_bit-ClearOutcome two_set two_set-IsValid (pos 9)

find_first_clear-available_example :
    FirstClear (test_bit two_set.bits) two_set.size (find_first_clear two_set)
    × ((find_first_clear two_set ≡ negsuc 0) ↔ (available two_set ≡ 0))
find_first_clear-available_example = find_first_clear-available two_set two_set-IsValid

new_bitmap-empty_example : is_set (new_bitmap 10) (pos 9) ≡ false
new_bitmap-empty_example = new_bitmap-empty 10 (pos 9)

find_first_clear_two : find_first_clear two_set ≡ pos 1
unfolding find_first_clear test_bit
find_first_clear_two = refl

abbrev pub small_net : IpNet
small_net = record { ip = 10 ∷ 244 ∷ 1 ∷ 8 ∷ []; ones = 29; bits = 32 }

pub parse_small :
    parse_cidr (codes "10.244.1.11/29") ≡ some (mapped_prefix ++ 10 ∷ 244 ∷ 1 ∷ 11 ∷ [], small_net)
unfolding parse_cidr parse_ip parse_ipv4_fields mask
parse_small = refl

-- Six usable addresses, with the gateway and a range excluded.
abbrev pub small : SubnetAllocator
small = record {
  subnet = small_net;
  bitmap = record { bits = 7 ∷ []; size = 6; allocated = 3 };
  exclude_ips =
      ((10 ∷ 244 ∷ 1 ∷ 9 ∷ []), tt)
      ∷ ((10 ∷ 244 ∷ 1 ∷ 10 ∷ []), tt)
      ∷ ((10 ∷ 244 ∷ 1 ∷ 11 ∷ []), tt)
      ∷ [];
  base_ip = 10 ∷ 244 ∷ 1 ∷ 8 ∷ [];
  size = 6;
}

abbrev small_specs : List Text
small_specs = codes "10.244.1.9" ∷ codes "10.244.1.10 - 10.244.1.11" ∷ codes "10.9.9.9" ∷ []

small_created : new_subnet_allocator 8 (codes "10.244.1.11/29") small_specs ≡ ok small
unfolding new_subnet_allocator parse_cidr parse_ip parse_ipv4_fields mask allocator_of hosts
    new_bitmap parse_and_exclude contains_byte split trim_space exclude_ip increment_ip increment
    ip_to_index ip_to_int to4 to16 ip_equal contains set_bit test_bit or_bit insert text_eq
small_created = refl

-- The excluded addresses refuse a release; the first grant is the address behind them.
small_runs :
    (release small (10 ∷ 244 ∷ 1 ∷ 10 ∷ []) ≡ err (excluded_ip (10 ∷ 244 ∷ 1 ∷ 10 ∷ [])))
    × (allocate_next small
        ≡ ok (
          record small { bitmap = record { bits = 15 ∷ []; size = 6; allocated = 4 } },
          ipv4 10 244 1 12,
        ))
unfolding release lookup text_eq to4 allocate_next find_first_clear test_bit set_bit or_bit
    index_to_ip ip_to_int int_to_ip value
small_runs = (refl, refl)

new_subnet_allocator-IsValid_example : IsValid small
new_subnet_allocator-IsValid_example =
    new_subnet_allocator-IsValid 8 (codes "10.244.1.11/29") small_specs
      (mapped_prefix ++ 10 ∷ 244 ∷ 1 ∷ 11 ∷ []) small_net small parse_small refl small_created

pub small-IsValid : IsValid small
small-IsValid =
    new_subnet_allocator-IsValid 8 (codes "10.244.1.11/29") small_specs
      (mapped_prefix ++ 10 ∷ 244 ∷ 1 ∷ 11 ∷ []) small_net small parse_small refl small_created

allocate_next-AllocateNextOutcome_example : AllocateNextOutcome small (allocate_next small)
allocate_next-AllocateNextOutcome_example = allocate_next-AllocateNextOutcome small-IsValid

allocate-AllocateOutcome_example :
    AllocateOutcome small (ipv4 10 244 1 13) (allocate small (ipv4 10 244 1 13))
allocate-AllocateOutcome_example = allocate-AllocateOutcome small-IsValid (ipv4 10 244 1 13)

four_bytes : All IsByte (to4 (ipv4 10 244 1 13))
unfolding to4 text_eq
four_bytes = omega arith

release-ReleaseOutcome_example :
    ReleaseOutcome small (ipv4 10 244 1 13) (release small (ipv4 10 244 1 13))
release-ReleaseOutcome_example = release-ReleaseOutcome small-IsValid (ipv4 10 244 1 13) four_bytes

abbrev calls : List Call
calls = takes_next ∷ takes (ipv4 10 244 1 13) ∷ gives (ipv4 10 244 1 13) ∷ takes_next ∷ []

run-Sound_example : Sound (run (small, []) calls)
run-Sound_example =
    run-Sound small [] calls (record { valid = small-IsValid; owned = tt; apart = tt })
      (tt, (four_bytes, (four_bytes, (tt, tt))))

ip_to_index-index_to_ip_example :
    (ip : Ip) × (index_to_ip small 4 ≡ ok ip) × (ip_to_index small ip ≡ ok 4)
ip_to_index-index_to_ip_example = ip_to_index-index_to_ip small-IsValid 4 (omega arith)

index_of_13 : ip_to_index small (ipv4 10 244 1 13) ≡ ok 4
unfolding ip_to_index ip_to_int to4 text_eq contains hosts value
index_of_13 = refl

index_to_ip-ip_to_index_example :
    (q : Ip) × (index_to_ip small 4 ≡ ok q) × (to4 q ≡ to4 (ipv4 10 244 1 13))
index_to_ip-ip_to_index_example =
    index_to_ip-ip_to_index small-IsValid (ipv4 10 244 1 13) 4 four_bytes index_of_13

six_text :
    (is_nil (parse_ip (trim_space (codes "fd00::1"))) ≡ false)
    × (is_nil (to4 (parse_ip (trim_space (codes "fd00::1")))) ≡ true)
    × (is_nil (to4 (parse_ip (trim_space (codes "10.244.1.9")))) ≡ false)
unfolding parse_ip parse_ipv4_fields trim_space to4 text_eq
six_text = (refl, refl, refl)

exclude_parts_mixed_example :
    exclude_parts 1000 small
      (codes "fd00::1-10.244.1.9")
      (codes "fd00::1" ∷ codes "10.244.1.9" ∷ [])
    ≡ running
exclude_parts_mixed_example =
    exclude_parts_mixed small 1000 (codes "fd00::1-10.244.1.9") (codes "fd00::1")
      (codes "10.244.1.9") small-IsValid six_text.0 six_text.1 six_text.2

two_addresses :
    (is_nil (to4 (parse_ip (trim_space (codes "10.244.1.12")))) ≡ false)
    × (is_nil (to4 (parse_ip (trim_space (codes "10.244.1.13")))) ≡ false)
    × All IsByte (to4 (parse_ip (trim_space (codes "10.244.1.12"))))
    × All IsByte (to4 (parse_ip (trim_space (codes "10.244.1.13"))))
unfolding parse_ip parse_ipv4_fields trim_space to4 text_eq
two_addresses = (refl, refl, omega arith, omega arith)

two_rounds :
    (value (to4 (parse_ip (trim_space (codes "10.244.1.13"))))
        + 1
        + 2 ^ 32
        - value (to4 (parse_ip (trim_space (codes "10.244.1.12")))))
      % 2 ^ 32
    < 3
unfolding parse_ip parse_ipv4_fields trim_space to4 text_eq value
two_rounds = omega arith

exclude_parts-Returns_example : Returns (
    exclude_parts 3 small
      (codes "10.244.1.12-10.244.1.13")
      (codes "10.244.1.12" ∷ codes "10.244.1.13" ∷ []))
exclude_parts-Returns_example =
    exclude_parts-Returns small 3 (codes "10.244.1.12-10.244.1.13") (codes "10.244.1.12")
      (codes "10.244.1.13") small-IsValid two_addresses.0 two_addresses.1 two_addresses.2
      two_addresses.3 two_rounds

gateway_text :
    (contains_byte b'-' (codes "10.244.1.9") ≡ false)
    × (is_nil (parse_ip (trim_space (codes "10.244.1.9"))) ≡ false)
    × (ip_to_index small (parse_ip (trim_space (codes "10.244.1.9"))) ≡ ok 0)
unfolding parse_ip parse_ipv4_fields trim_space to4 text_eq contains_byte ip_to_index ip_to_int
    contains hosts value
gateway_text = (refl, refl, refl)

new_subnet_allocator-excluded_example :
    is_excluded small (parse_ip (trim_space (codes "10.244.1.9"))) ≡ true
new_subnet_allocator-excluded_example =
    new_subnet_allocator-excluded 8 (codes "10.244.1.11/29") small_specs (codes "10.244.1.9") 0
      small small_created (inl refl) gateway_text.0 gateway_text.1 gateway_text.2
