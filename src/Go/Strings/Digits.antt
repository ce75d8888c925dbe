-- ===== src/Go/Strings/Digits.antt =====
-- The digits of a number stand for it, so that no two numbers have the same digits.
use gardener_extension_shoot.Base.{
  ℕ, zero, suc, ◌+◌, ◌-◌, ◌/◌, ◌%◌, ◌≤◌, ◌<◌, ◌≡◌, sym, ap, ◌∙◌, ◌≢◌, Bool-cases, inl, inr, [], ◌∷◌,
  arith, leb, Str, All, All-map,
}
use Prim.Native.Nat.{◌*◌}
use mathlib.Core.Path.{subst}
use gardener_extension_shoot.Go.Strings.{digits_onto, itoa}
use gardener_extension_shoot.Go.Path.Laws.{IsPlain}

-- What a text of digits stands for, behind a number already read.
abbrev value_onto : ℕ → Str → ℕ
value_onto n [] = n
value_onto n (c ∷ s) = value_onto (n * 10 + (c - b'0')) s

digits_onto-value :
    (fuel n : ℕ) (ds : Str) → n < fuel → value_onto 0 (digits_onto fuel n ds) ≡ value_onto n ds
unfolding digits_onto
digits_onto-value zero n ds h = absurd (omega arith)
digits_onto-value (suc f) n ds h = elim (Bool-cases (leb n 9)) [
  | inl small ↦ rw small (ap (λ k. value_onto k ds) (omega arith))
  | inr large ↦
      let lt : n / 10 < f = ground arith in
      rw large (
        digits_onto-value f (n / 10) ((b'0' + n % 10) ∷ ds) lt
        ∙ ap (λ k. value_onto k ds) (omega arith))
]

-- `Itoa` has fuel enough: its digits stand for the number.
pub itoa-value : (n : ℕ) → value_onto 0 (itoa n) ≡ n
unfolding itoa
itoa-value n = digits_onto-value (suc n) n [] (omega arith)

pub itoa_injective : (m n : ℕ) → itoa m ≡ itoa n → m ≡ n
itoa_injective m n h = sym (itoa-value m) ∙ ap (value_onto 0) h ∙ itoa-value n

abbrev AreDigits : Str → Type 0
AreDigits = All (λ c. (b'0' ≤ c) × (c ≤ b'9'))

digits_onto-AreDigits : (fuel n : ℕ) (ds : Str) → AreDigits ds → AreDigits (digits_onto fuel n ds)
unfolding digits_onto
digits_onto-AreDigits zero n ds h = h
digits_onto-AreDigits (suc f) n ds h = elim (Bool-cases (leb n 9)) [
  | inl small ↦ rw small ((omega arith, ground arith), h)
  | inr large ↦
      rw large
        (digits_onto-AreDigits f (n / 10) ((b'0' + n % 10) ∷ ds) ((omega arith, omega arith), h))
]

zero-ne-nil : itoa 0 ≢ []
unfolding itoa digits_onto
zero-ne-nil h = cc

itoa-ne-nil : (n : ℕ) → itoa n ≢ []
itoa-ne-nil n h =
    let is_zero : n ≡ 0 = sym (itoa-value n) ∙ ap (value_onto 0) h in zero-ne-nil (rw is_zero at h)

itoa-AreDigits : (n : ℕ) → AreDigits (itoa n)
unfolding itoa
itoa-AreDigits n = digits_onto-AreDigits (suc n) n [] tt

AreDigits-dot : (s : Str) → AreDigits (b'.' ∷ s) → ⊥
AreDigits-dot s (first, h) = absurd (omega arith)

-- The digits of a number are a name for an entry of a directory.
pub itoa-IsPlain : (n : ℕ) → IsPlain (itoa n)
itoa-IsPlain n = record {
  no_slash =
      All-map _ _ (itoa n) (λ c digit e. absurd (omega (arith, digit, e))) (itoa-AreDigits n);
  not_empty = itoa-ne-nil n;
  not_dot = λ e. AreDigits-dot [] (subst AreDigits e (itoa-AreDigits n));
  not_dots = λ e. AreDigits-dot (b'.' ∷ []) (subst AreDigits e (itoa-AreDigits n));
}
