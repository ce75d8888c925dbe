-- ===== src/Cmd/Flags.antt =====
-- How a command gets the value of a flag: the one that is given, if its validator accepts it, or else
-- its default, on which the validator is not run.
use gardener_extension_shoot.Base.{
  ◌≡◌, ◌⊎◌, inl, inr, not, Option, none, some, List, [], ◌∷◌, Result, ok, err, contains_func,
  if◌then◌else◌, Str, ◌==◌, Any, arith, ok-injective,
}

-- The value that is given, or else the default.
abbrev pub or_else : {A : Type 0} → A → Option A → A
or_else default none = default
or_else default (some val) = val

abbrev pub flag_value : {A E : Type 0} → (A → Option E) → A → Option A → Result E A
flag_value validator default none = ok default
flag_value validator default (some val) = elim (validator val) [ none ↦ ok val | some e ↦ err e ]

-- `if !slices.Contains(supported, val) { return e }`
abbrev pub one_of : {E : Type 0} → E → List Str → Str → Option E
one_of e supported val = if not (contains_func (λ s. val == s) supported) then some e else none

one_of-Any :
    {E : Type 0} (e : E) (supported : List Str) (val : Str)
    → one_of e supported val ≡ none
    → Any (λ s. val ≡ s) supported
one_of-Any e [] val h = absurd (cc)
one_of-Any e (s ∷ supported) val h = ground (arith, one_of-Any e supported val)

-- The value of a flag is its default, or its validator has accepted it.
pub flag_value-eq-ok :
    {A E : Type 0} (validator : A → Option E) (default : A) (given : Option A) {val : A}
    → flag_value validator default given ≡ ok val
    → (default ≡ val) ⊎ (validator val ≡ none)
flag_value-eq-ok validator default none h = inl (ok-injective h)
flag_value-eq-ok validator default (some val) h = ground arith

-- The value of such a flag is its default, or one of those that are supported.
pub flag_value-one_of :
    {E : Type 0} (e : E) (supported : List Str) (default : Str) (given : Option Str) {val : Str}
    → flag_value (one_of e supported) default given ≡ ok val
    → (default ≡ val) ⊎ Any (λ s. val ≡ s) supported
flag_value-one_of e supported default given {val} h =
    elim (flag_value-eq-ok (one_of e supported) default given h) [
      | inl same ↦ inl same
      | inr accepted ↦ inr (one_of-Any e supported val accepted)
    ]
