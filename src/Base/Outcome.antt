-- ===== src/Base/Outcome.antt =====
-- `Result<A, E>` of the source.
use mathlib.Core.Path.{◌≡◌, refl}
use mathlib.Core.Option.{Option, none, some}
use mathlib.Core.Logic.{◌⊎◌, inl, inr}

pub data Result {ℓ} (E : Type 0) (A : Type ℓ) : Type ℓ where
  err : E → Result E A
  ok : A → Result E A

module _ {ℓ} {E : Type 0} {A : Type ℓ} where
  -- `Option::ok_or`.
  abbrev pub ok_or : E → Option A → Result E A
  ok_or e (some v) = ok v
  ok_or e none = err e

  pub Result-cases : (r : Result E A) → ((v : A) × (r ≡ ok v)) ⊎ ((e : E) × (r ≡ err e))
  Result-cases (err e) = inr (e, refl)
  Result-cases (ok v) = inl (v, refl)

-- The `?` operator, with and without a use of its value.
module _ {ℓ κ} {E : Type 0} {A : Type ℓ} {B : Type κ} where
  infixl 5 ◌>>=◌ ◌>>◌
  abbrev pub ◌>>=◌ : Result E A → (A → Result E B) → Result E B
  err e >>= rest = err e
  ok v >>= rest = rest v

  abbrev pub ◌>>◌ : Result E A → Result E B → Result E B
  err e >> rest = err e
  ok v >> rest = rest

  -- Where `?` passes a value on, and what follows succeeds.
  pub >>=-ok :
      (r : Result E A) (rest : A → Result E B) {w : B}
      → (r >>= rest) ≡ ok w
      → (v : A) × (r ≡ ok v) × (rest v ≡ ok w)
  >>=-ok (err e) rest done = cc
  >>=-ok (ok v) rest done = (v, refl, done)

  -- The same where the first value is not used.
  pub >>-ok :
      (r : Result E A) (s : Result E B) {w : B}
      → (r >> s) ≡ ok w
      → ((v : A) × (r ≡ ok v)) × (s ≡ ok w)
  >>-ok (err e) s done = cc
  >>-ok (ok v) s done = ((v, refl), done)

  pub >>-intro :
      (r : Result E A) (s : Result E B) {v : A} {w : B} → r ≡ ok v → s ≡ ok w → (r >> s) ≡ ok w
  >>-intro (err e) s p q = cc
  >>-intro (ok v) s p q = q

-- `Option::and_then`.
abbrev pub and_then {ℓ κ} : {A : Type ℓ} {B : Type κ} → Option A → (A → Option B) → Option B
and_then none f = none
and_then (some a) f = f a

pub ok_inj : {E A : Type 0} {a b : A} → Path (Result E A) (ok a) (ok b) → a ≡ b
ok_inj h = cc

pub err_inj : {E A : Type 0} {a b : E} → Path (Result E A) (err a) (err b) → a ≡ b
err_inj h = cc

pub some_inj : {A : Type 0} {a b : A} → some a ≡ some b → a ≡ b
some_inj h = cc
