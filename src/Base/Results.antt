-- ===== src/Base/Results.antt =====
-- Python exceptions as values: a call returns its value or the exception that it raises.
use Prim.Native.Nat.{ℕ}
use mathlib.Core.Path.{◌≡◌, refl}
use mathlib.Core.Bool.{Bool, true, false}

-- The exception classes that the modelled code raises; the messages are left out.
pub data Exception : Type 0 where
  value_error type_error key_error runtime_error stop_iteration index_error : Exception
  queue_closed terminal_error leadership_lost assertion_error : Exception
  -- `httpx.RequestError`, `TimeoutError` and `asyncio.CancelledError`
  request_failed timed_out cancelled : Exception
  -- `WatchExpired`
  watch_expired : Exception
  -- an `APIError` with the HTTP status that it carries
  api_error : ℕ → Exception

pub data Result {ℓ} (A : Type ℓ) : Type ℓ where
  ok : A → Result A
  raise : Exception → Result A

infixl 5 ◌>>=◌ ◌>>◌
abbrev pub ◌>>=◌ {ℓ κ} : {A : Type ℓ} {B : Type κ} → Result A → (A → Result B) → Result B
raise e >>= next = raise e
ok a >>= next = next a

-- A statement that returns nothing, before the others.
abbrev pub ◌>>◌ {κ} : {B : Type κ} → Result (Unit {0}) → Result B → Result B
raise e >> after = raise e
ok _ >> after = after

-- `if test: raise e`
abbrev pub raise_if : Bool → Exception → Result (Unit {0})
raise_if test e = elim test [ true ↦ raise e | false ↦ ok tt ]

-- What a call that returned went through
pub bind_returned {ℓ κ} :
    {B : Type κ} {A : Type ℓ} {result : B} (first : Result A) (next : A → Result B)
    (returned : (first >>= next) ≡ ok result)
    → (value : A) × (first ≡ ok value) × (next value ≡ ok result)
bind_returned (raise e) next returned = cc
bind_returned (ok value) next returned = (value, refl, returned)

pub then_returned {κ} :
    {B : Type κ} {result : B} (first : Result (Unit {0})) (next : Result B)
    (returned : (first >> next) ≡ ok result)
    → (first ≡ ok tt) × (next ≡ ok result)
then_returned (raise e) next returned = cc
then_returned (ok _) next returned = (refl, returned)

pub raise_if_returned : (test : Bool) (e : Exception) → raise_if test e ≡ ok tt → test ≡ false
raise_if_returned false e returned = refl
raise_if_returned true e returned = cc

pub ok_inj : {A : Type 0} {a b : A} → ok a ≡ ok b → a ≡ b
ok_inj returned = cc
