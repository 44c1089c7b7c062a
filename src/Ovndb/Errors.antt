-- ===== src/Ovndb/Errors.antt =====
-- pkg/ovndb/errors.go: the errors of a database operation, and steps on a state that may fail and
-- keep what they had already written.
use zstack_ovn_kubernetes.Base.{ℕ, ◌≡◌, refl, Text, Bool, true, false}

-- `wrapped` is fmt.Errorf("…: %w", err), which hides the type of the error inside.
pub data Error : Type 0 where
  connection_error : Text → ℕ → Error
  transaction_error : Text → Text → Error
  object_not_found : Text → Text → Error
  object_exists : Text → Text → Error
  validation_error : Text → Error
  not_connected : Error
  operation_failed : Error
  kubernetes_error : Error
  wrapped : Text → Error → Error

-- IsNotFound, IsExists, IsConnectionError, IsTransactionError and IsValidationError: a type assertion
-- on the outermost error.
abbrev pub is_not_found : Error → Bool
is_not_found (object_not_found t n) = true
is_not_found e = false

abbrev pub is_exists : Error → Bool
is_exists (object_exists t n) = true
is_exists e = false

abbrev pub is_connection_error : Error → Bool
is_connection_error (connection_error a n) = true
is_connection_error e = false

abbrev pub is_transaction_error : Error → Bool
is_transaction_error (transaction_error o d) = true
is_transaction_error e = false

abbrev pub is_validation_error : Error → Bool
is_validation_error (validation_error f) = true
is_validation_error e = false

pub data Result (A : Type 0) : Type 0 where
  ok : A → Result A
  err : Error → Result A

abbrev pub Step : Type 0 → Type 0 → Type 0
Step S A = S → S × Result A

abbrev pub done : {S A : Type 0} → A → Step S A
done a s = (s, ok a)

abbrev pub fail : {S A : Type 0} → Error → Step S A
fail e s = (s, err e)

abbrev pub follow : {S A B : Type 0} → (A → Step S B) → S × Result A → S × Result B
follow f (t, ok a) = f a t
follow f (t, err e) = (t, err e)

infixl 5 ◌>>=◌
abbrev pub ◌>>=◌ : {S A B : Type 0} → Step S A → (A → Step S B) → Step S B
(m >>= f) s = follow f (m s)

-- fmt.Errorf("…: %w", err) around a step.
abbrev pub wrap_result : {S A : Type 0} → Text → S × Result A → S × Result A
wrap_result message (t, ok a) = (t, ok a)
wrap_result message (t, err e) = (t, err (wrapped message e))

abbrev pub wrap : {S A : Type 0} → Text → Step S A → Step S A
wrap message m s = wrap_result message (m s)

-- A chain succeeds only through the success of its first step.
pub follow-ok :
    {S A B : Type 0} (f : A → Step S B) (r : S × Result A) (t : S) (b : B)
    → follow f r ≡ (t, ok b)
    → (u : S) × (a : A) × (r ≡ (u, ok a)) × (f a u ≡ (t, ok b))
follow-ok f (u, ok a) t b e = (u, a, refl, e)
follow-ok f (u, err x) t b e = absurd cc

pub wrap-ok :
    {S A : Type 0} (message : Text) (r : S × Result A) (t : S) (a : A)
    → wrap_result message r ≡ (t, ok a)
    → r ≡ (t, ok a)
wrap-ok message (u, ok x) t a e = e
wrap-ok message (u, err x) t a e = absurd cc
