-- ===== src/Effects.antt =====
-- Exceptions, and calls that may raise one. An exception is what the handlers of the code look at:
-- its class, `str(e)`, and the response that an HTTP error carries.
use revix.Prelude.{ℕ, Text, Option, none, List}

pub data Kind : Type 0 where
  runtime_error value_error key_error type_error decode_error http_error timeout_error : Kind
  unique_violation : Kind
  http_exception : (status_code : ℕ) → Kind

pub record Response : Type 0 where
  pub status_code : ℕ
  pub headers : List (Text × Text)

pub record Exception : Type 0 where
  pub kind : Kind
  pub text : Text
  pub response : Option Response

abbrev pub exception : Kind → Text → Exception
exception k s = record { kind = k; text = s; response = none }

pub data Result (A : Type 0) : Type 0 where
  ok : A → Result A
  raised : Exception → Result A

infixl 5 ◌>>=◌
abbrev pub ◌>>=◌ : {A B : Type 0} → Result A → (A → Result B) → Result B
ok a >>= f = f a
raised e >>= f = raised e

-- A block under `async with conn`: it commits, or it raises and its writes are rolled back.
abbrev pub transaction : {A S : Type 0} → (S → Result A × S) → S → Result A × S
transaction m s = let (r, s') = m s in elim r [ ok a ↦ (ok a, s') | raised e ↦ (raised e, s) ]

-- a postcondition of the calls that return
abbrev pub OnOk {ℓ} : {A : Type 0} → (A → Type ℓ) → Result A → Type ℓ
OnOk P (ok a) = P a
OnOk P (raised e) = Unit
