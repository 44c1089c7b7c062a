-- ===== src/Allocator/Subnet/Capacity.antt =====
-- pkg/allocator/subnet_allocator.go: Available and Used together.
use zstack_ovn_kubernetes.Base.{◌+◌, ◌≡◌, arith}
use zstack_ovn_kubernetes.Allocator.Subnet.{SubnetAllocator, free, used}
use zstack_ovn_kubernetes.Allocator.Subnet.Valid.{IsValid}
use zstack_ovn_kubernetes.Allocator.Bitmap.{test_bit, available}
use zstack_ovn_kubernetes.Allocator.Bitmap.Invariant.{count-le}

pub free-used : {a : SubnetAllocator} → IsValid a → free a + used a ≡ a.size
unfolding free used available
free-used {a} v =
    omega (arith, v.bitmap_size, v.bitmap.counted, count-le (test_bit a.bitmap.bits) a.bitmap.size)
