-- ===== src/Base/Errors.antt =====
-- A Go call that returns a value and an error, one of which is nil.
use mathlib.Core.Path.{◌≡◌, refl, sym, subst}
use mathlib.Core.Logic.{◌⊎◌, inl, inr}
use mathlib.Core.Option.{Option, none, some}

pub data Result (E A : Type 0) : Type 0 where
  ok : A → Result E A
  err : E → Result E A

-- The next call is made where the error is nil.
infixl 5 ◌>>=◌
abbrev pub ◌>>=◌ : {E A B : Type 0} → Result E A → (A → Result E B) → Result E B
err e >>= next = err e
ok x >>= next = next x

-- `fmt.Errorf("…: %w", err)`
abbrev pub wrap : {E F A : Type 0} → (E → F) → Result E A → Result F A
wrap f (ok a) = ok a
wrap f (err e) = err (f e)

-- `if err := …; err != nil { return err }`, where nil is `none`.
abbrev pub fail_if : {E : Type 0} → Option E → Result E (Unit {0})
fail_if none = ok tt
fail_if (some e) = err e

abbrev pub IsOk : {E A : Type 0} → Result E A → Type 0
IsOk (ok _) = Unit
IsOk (err _) = ⊥

pub >>=-eq-ok :
    {E A B : Type 0} (call : Result E A) (next : A → Result E B) {y : B}
    → (call >>= next) ≡ ok y
    → (x : A) × (call ≡ ok x) × (next x ≡ ok y)
>>=-eq-ok (ok x) next passed = (x, refl, passed)
>>=-eq-ok (err e) next passed = cc

pub wrap-eq-ok : {E F A : Type 0} (f : E → F) (m : Result E A) {a : A} → wrap f m ≡ ok a → m ≡ ok a
wrap-eq-ok f (ok a) h = cc
wrap-eq-ok f (err e) h = cc

pub >>=-IsOk :
    {E A B : Type 0} (m : Result E A) (f : A → Result E B)
    → IsOk (m >>= f)
    → (a : A) × (m ≡ ok a) × IsOk (f a)
>>=-IsOk (ok a) f h = (a, refl, h)
>>=-IsOk (err e) f h = absurd h

pub >>=-ok : {E A : Type 0} (m : Result E A) → (m >>= λ a. ok a) ≡ m
>>=-ok (ok a) = refl
>>=-ok (err e) = refl

pub IsOk-ok : {E A : Type 0} {m : Result E A} (a : A) → m ≡ ok a → IsOk m
IsOk-ok a h = subst IsOk (sym h) tt

pub IsOk-eq : {E A : Type 0} (m : Result E A) → IsOk m → (a : A) × (m ≡ ok a)
IsOk-eq (ok a) h = (a, refl)
IsOk-eq (err e) h = absurd h

pub Result-cases :
    {E A : Type 0} (m : Result E A) → ((a : A) × (m ≡ ok a)) ⊎ ((e : E) × (m ≡ err e))
Result-cases (ok a) = inl (a, refl)
Result-cases (err e) = inr (e, refl)

pub ok-injective : {E A : Type 0} {a b : A} → ◌≡◌ {A = Result E A} (ok a) (ok b) → a ≡ b
ok-injective h = cc
