-- ===== src/Prelude/Errors.antt =====
-- Go's error values. A Go function that returns (T, error) returns a `Result`.
-- An error is told apart by the sentinel that it wraps (`errors.Is`) and, for a server error, by
-- its code and its `Retriable` flag; the message text is left out.
use Prim.Native.Nat.{ℕ}
use mathlib.Core.Path.{◌≡◌, refl}
use mathlib.Core.Bool.{Bool}
use mathlib.Core.Option.{Option, none, some}
use mathlib.Core.Logic.{◌⊎◌, inl, inr}

pub data GoError : Type 0 where
  -- the package's sentinels
  err_invalid_config : GoError
  err_invalid_schema : GoError
  err_invalid_row : GoError
  err_malformed_row : GoError
  err_malformed_record_batch : GoError
  err_metadata : GoError
  err_unknown_partition : GoError
  err_no_bucket_leader : GoError
  err_unknown_bucket : GoError
  err_validation : GoError
  err_table_kind : GoError
  err_closed : GoError
  err_wakeup : GoError
  -- `ErrWriterState`, which names the first error of the bucket
  err_writer_state : GoError → GoError
  -- `*ServerError`
  server : ℕ → Bool → GoError
  -- context.Canceled and context.DeadlineExceeded
  canceled : GoError
  deadline_exceeded : GoError
  -- transport.ErrClosed, io.EOF and io.ErrClosedPipe
  connection_closed : GoError
  -- a net.Error
  network : GoError
  -- a plain `errors.New`
  plain : GoError

pub data Result {ℓ} (A : Type ℓ) : Type ℓ where
  ok : A → Result A
  err : GoError → Result A

infixl 5 ◌>>=◌ ◌>>◌
abbrev pub ◌>>=◌ {ℓ κ} : {A : Type ℓ} {B : Type κ} → Result A → (A → Result B) → Result B
ok a >>= f = f a
err e >>= f = err e

abbrev pub ◌>>◌ {ℓ κ} : {A : Type ℓ} {B : Type κ} → Result A → Result B → Result B
m >> k = m >>= λ _. k

pub Result-cases {ℓ} :
    {A : Type ℓ} (r : Result A) → ((a : A) × (r ≡ ok a)) ⊎ ((e : GoError) × (r ≡ err e))
Result-cases (ok a) = inl (a, refl)
Result-cases (err e) = inr (e, refl)

-- A chain that succeeds has a first step that does.
pub >>=_ok {ℓ κ} :
    {A : Type ℓ} {B : Type κ} (r : Result A) (f : A → Result B) (b : B)
    → r >>= f ≡ ok b
    → (a : A) × (r ≡ ok a) × (f a ≡ ok b)
>>=_ok (ok a) f b h = (a, refl, h)
>>=_ok (err e) f b h = cc

-- `if err := check; err != nil { return err }`, before a result.
unfoldable pub unless_error {ℓ} : {A : Type ℓ} → Option GoError → Result A → Result A
unless_error (some e) r = err e
unless_error none r = r

pub unless_error-ok {ℓ} :
    {A : Type ℓ} (e : Option GoError) (r : Result A) (a : A)
    → unless_error e r ≡ ok a
    → (e ≡ none) × (r ≡ ok a)
unfolding unless_error
unless_error-ok none r a h = (refl, h)
unless_error-ok (some e) r a h = cc
