-- ===== src/Allocator/Subnet/Errors.antt =====
-- The results of the allocator's methods: a value, an error of errors.go or of fmt.Errorf, a panic, or
-- a loop that has used up the rounds that it was given.
use zstack_ovn_kubernetes.Base.{Text}
use zstack_ovn_kubernetes.Net.Ip.{Ip, IpNet}
use zstack_ovn_kubernetes.Allocator.Bitmap

pub data Error : Type 0 where
  subnet_exhausted : IpNet → Error
  ip_already_allocated : Ip → Error
  ip_out_of_range : Ip → Error
  invalid_cidr : Text → Error
  subnet_too_small : Text → Error
  invalid_exclude : Text → Error
  excluded_ip : Ip → Error
  bitmap_error : Bitmap.Error → Error

pub data Outcome {ℓ} (A : Type ℓ) : Type ℓ where
  ok : A → Outcome A
  err : Error → Outcome A
  panic : Outcome A
  running : Outcome A

infixl 5 ◌>>=◌
abbrev pub ◌>>=◌ {ℓ κ} : {A : Type ℓ} {B : Type κ} → Outcome A → (A → Outcome B) → Outcome B
ok a >>= f = f a
err e >>= f = err e
panic >>= f = panic
running >>= f = running

-- `fmt.Errorf("…: %w", err)` around an error of the bitmap.
abbrev pub lift_bitmap {ℓ} : {A : Type ℓ} → Bitmap.Result A → Outcome A
lift_bitmap (Bitmap.ok a) = ok a
lift_bitmap (Bitmap.err e) = err (bitmap_error e)
