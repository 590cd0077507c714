-- ===== src/Prelude/Fallible.antt =====
-- Exceptions as values, and actions on a state that may raise. What was written before an
-- exception stays written, so the state comes back beside the error; `transaction` is the
-- exception to that, since a database transaction that raises leaves nothing behind.
use mathlib.Core.Bool.{Bool, true, false}
use mathlib.Core.Path.{◌≡◌, refl}
use mathlib.Core.Logic.{◌⊎◌, inl, inr}
use mathlib.Core.Option.{Option, none, some}
use Prim.Native.String.{String}

-- The exception classes that the services throw, with their messages.
pub data HttpError : Type 0 where
  bad_request unauthorized forbidden not_found : String → HttpError
  conflict bad_gateway too_many_requests unsupported_media_type : String → HttpError
  -- not HTTP exceptions: the filter answers 500
  type_error unique_violation foreign_key_violation : HttpError

pub data Result {ℓ κ} (E : Type ℓ) (A : Type κ) : Type (ℓ ⊔ κ) where
  ok : A → Result E A
  err : E → Result E A

abbrev pub Exec : Type 0 → Type 0 → Type 0 → Type 0
Exec E S A = S → Result E A × S

module _ {E S A : Type 0} where
  abbrev pub pure : A → Exec E S A
  pure a s = (ok a, s)

  abbrev pub raise : E → Exec E S A
  raise e s = (err e, s)

  abbrev pub gets : (S → A) → Exec E S A
  gets f s = (ok (f s), s)

  abbrev pub or_raise : Option A → E → Exec E S A
  or_raise none e s = (err e, s)
  or_raise (some a) e s = (ok a, s)

  abbrev pub lift : Result E A → Exec E S A
  lift r s = (r, s)

  abbrev settle : S → Result E A × S → Result E A × S
  settle s (ok a, s') = (ok a, s')
  settle s (err e, s') = (err e, s)

  -- `prisma.$transaction`: all of the writes, or none of them
  abbrev pub transaction : Exec E S A → Exec E S A
  transaction m s = settle s (m s)

module _ {E S A : Type 0} where
  abbrev recover : (E → Exec E S A) → Result E A × S → Result E A × S
  recover handler (ok a, s) = (ok a, s)
  recover handler (err e, s) = handler e s

  -- `try` and `catch`
  abbrev pub attempt : Exec E S A → (E → Exec E S A) → Exec E S A
  attempt m handler s = recover handler (m s)

module _ {E S : Type 0} where
  abbrev pub modify : (S → S) → Exec E S (Unit {0})
  modify f s = (ok tt, f s)

  abbrev pub raise_if : Bool → E → Exec E S (Unit {0})
  raise_if true e s = (err e, s)
  raise_if false e s = (ok tt, s)

module _ {E S A B : Type 0} where
  abbrev continue : (A → Exec E S B) → Result E A × S → Result E B × S
  continue f (ok a, s) = f a s
  continue f (err e, s) = (err e, s)

  infixl 5 ◌>>=◌ ◌>>◌
  abbrev pub ◌>>=◌ : Exec E S A → (A → Exec E S B) → Exec E S B
  ◌>>=◌ m f s = continue f (m s)

  abbrev pub ◌>>◌ : Exec E S A → Exec E S B → Exec E S B
  m >> k = m >>= λ _. k

-- To split on how an action ended.
pub Outcome-cases :
    {E A S : Type 0} (r : Result E A × S)
    → ((e : E) × (r ≡ (err e, r.1))) ⊎ ((a : A) × (r ≡ (ok a, r.1)))
Outcome-cases (ok a, s) = inr (a, refl)
Outcome-cases (err e, s) = inl (e, refl)

pub Result-cases {ℓ κ} :
    {E : Type ℓ} {A : Type κ} (r : Result E A) → ((e : E) × (r ≡ err e)) ⊎ ((a : A) × (r ≡ ok a))
Result-cases (ok a) = inr (a, refl)
Result-cases (err e) = inl (e, refl)

abbrev pub required {ℓ κ} : {E : Type ℓ} {A : Type κ} → Option A → E → Result E A
required none why = err why
required (some a) why = ok a

abbrev pub and_then {ℓ κ μ} :
    {E : Type ℓ} {A : Type κ} {B : Type μ} → Result E A → (A → Result E B) → Result E B
and_then (ok a) f = f a
and_then (err why) f = err why
