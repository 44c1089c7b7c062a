-- ===== src/Config/Priority.antt =====
-- pkg/config/config.go: what the overrides of the environment change and keep.
use zstack_ovn_kubernetes.Base.{
  zero, suc, ◌≡◌, refl, ◌≤◌, ◌<◌, ◌^◌, Bool, [], ◌∷◌, Text, Option, none, some, ℤ, pos, negsuc,
  arith, parse_int, parse_int-Int64, Int64,
}
use zstack_ovn_kubernetes.Config.{Config}
use zstack_ovn_kubernetes.Config.Env.{
  Getenv, override, override_flag, override_int, positive_or, apply_env_overrides,
}

override_again : (v old : Text) → override v (override v old) ≡ override v old
unfolding override
override_again [] old = refl
override_again (c ∷ v) old = refl

flag_again : (v : Text) (old : Bool) → override_flag v (override_flag v old) ≡ override_flag v old
unfolding override_flag
flag_again [] old = refl
flag_again (c ∷ v) old = refl

int_again : (v : Text) (old : ℤ) → override_int v (override_int v old) ≡ override_int v old
unfolding override_int
int_again [] old = refl
int_again (c ∷ v) old = again (parse_int (c ∷ v))
  where
    again : (o : Option ℤ) → positive_or o (positive_or o old) ≡ positive_or o old
    again none = refl
    again (some (pos zero)) = refl
    again (some (pos (suc n))) = refl
    again (some (negsuc n)) = refl

-- Overrides applied twice are overrides applied once.
pub apply_env_overrides_idem :
    (env : Getenv) (c : Config)
    → apply_env_overrides env (apply_env_overrides env c) ≡ apply_env_overrides env c
unfolding apply_env_overrides
apply_env_overrides_idem env c = simp (override_again, flag_again, int_again)

-- A positive number of 64 bits.
abbrev pub PositiveInt64 : ℤ → Type 0
PositiveInt64 (pos n) = (1 ≤ n) × (n < 2 ^ 63)
PositiveInt64 (negsuc n) = ⊥

positive_or-PositiveInt64 :
    (o : Option ℤ) (old : ℤ)
    → ((n : ℤ) → o ≡ some n → Int64 n)
    → PositiveInt64 old
    → PositiveInt64 (positive_or o old)
positive_or-PositiveInt64 none old r h = h
positive_or-PositiveInt64 (some (pos zero)) old r h = h
positive_or-PositiveInt64 (some (pos (suc n))) old r h = (omega arith, r (pos (suc n)) refl)
positive_or-PositiveInt64 (some (negsuc n)) old r h = h

override_int-PositiveInt64 :
    (v : Text) (old : ℤ) → PositiveInt64 old → PositiveInt64 (override_int v old)
unfolding override_int
override_int-PositiveInt64 [] old h = h
override_int-PositiveInt64 (c ∷ v) old h =
    positive_or-PositiveInt64 (parse_int (c ∷ v)) old (parse_int-Int64 (c ∷ v)) h

-- Whatever the environment holds, the numbers of the DPDK settings stay between 1 and 2 ^ 63 - 1 when
-- they were there before.
pub apply_env_overrides-PositiveInt64 :
    (env : Getenv) (c : Config)
    → PositiveInt64 c.dpdk.queues
    → PositiveInt64 c.dpdk.min_hugepages_mb
    → PositiveInt64 (apply_env_overrides env c).dpdk.queues
      × PositiveInt64 (apply_env_overrides env c).dpdk.min_hugepages_mb
unfolding apply_env_overrides
apply_env_overrides-PositiveInt64 env c q m = (
  override_int-PositiveInt64 _ c.dpdk.queues q,
  override_int-PositiveInt64 _ c.dpdk.min_hugepages_mb m,
)
