-- ===== src/Base/Lists.antt =====
-- Go slices: length, search, and predicates over their elements.
use Prim.Native.Nat.{ℕ, zero, suc}
use mathlib.Core.Path.{◌≡◌, refl}
use mathlib.Core.Logic.{◌↔◌, ◌⊎◌, inl, inr}
use mathlib.Core.Bool.{Bool, true, false}
use mathlib.Core.Option.{Option, none, some}
use mathlib.Core.List.{List, [], ◌∷◌, ◌++◌}
use native.Mathlib.Omega.{arith}
use gardener_extension_shoot.Base.Logic.{if◌then◌else◌}

module _ {ℓ} {A : Type ℓ} where
  -- `len(xs)`
  abbrev pub length : List A → ℕ
  length [] = 0
  length (x ∷ xs) = suc (length xs)

  abbrev pub get_elem? : List A → ℕ → Option A
  get_elem? [] i = none
  get_elem? (x ∷ xs) zero = some x
  get_elem? (x ∷ xs) (suc i) = get_elem? xs i

  -- The first element that passes the test.
  abbrev pub find : (A → Bool) → List A → Option A
  find p [] = none
  find p (x ∷ xs) = if p x then some x else find p xs

  -- `slices.IndexFunc`, with `none` for -1.
  abbrev pub index_func : (A → Bool) → List A → Option ℕ
  index_func p [] = none
  index_func p (x ∷ xs) =
      if p x then some 0 else elim (index_func p xs) [ none ↦ none | some i ↦ some (suc i) ]

  -- `slices.ContainsFunc`
  abbrev pub contains_func : (A → Bool) → List A → Bool
  contains_func p [] = false
  contains_func p (x ∷ xs) = if p x then true else contains_func p xs

module _ {ℓ} {A : Type ℓ} where
  abbrev pub All : (A → Type 0) → List A → Type 0
  All P [] = Unit
  All P (x ∷ xs) = P x × All P xs

  abbrev pub Any : (A → Type 0) → List A → Type 0
  Any P [] = ⊥
  Any P (x ∷ xs) = P x ⊎ Any P xs

  pub All-append : (Q : A → Type 0) (ds bs : List A) → All Q ds → All Q bs → All Q (ds ++ bs)
  All-append Q [] bs none_there there = there
  All-append Q (d ∷ ds) bs (first, rest) there = (first, All-append Q ds bs rest there)

  pub find-eq-none : (p : A → Bool) (xs : List A) → find p xs ≡ none → index_func p xs ≡ none
  find-eq-none p [] h = refl
  find-eq-none p (x ∷ xs) h = ground (arith, find-eq-none p xs)

  pub contains_func_iff :
      (p : A → Bool) (xs : List A) → (contains_func p xs ≡ true) ↔ Any (λ x. p x ≡ true) xs
  contains_func_iff p [] = (λ h. cc, λ h. absurd h)
  contains_func_iff p (x ∷ xs) = ground (arith, contains_func_iff p xs)

  pub index_func-eq-none :
      (p : A → Bool) (xs : List A) → index_func p xs ≡ none → All (λ x. p x ≡ false) xs
  index_func-eq-none p [] h = tt
  index_func-eq-none p (x ∷ xs) h = ground (arith, index_func-eq-none p xs)

  pub index_func-eq-none_of :
      (p : A → Bool) (xs : List A) → All (λ x. p x ≡ false) xs → index_func p xs ≡ none
  index_func-eq-none_of p [] h = refl
  index_func-eq-none_of p (x ∷ xs) h = ground (arith, index_func-eq-none_of p xs h.1)

  -- What stands at the index that is found passes the test.
  pub index_func-eq-some :
      (p : A → Bool) (xs : List A) (i : ℕ)
      → index_func p xs ≡ some i
      → (a : A) × (get_elem? xs i ≡ some a) × (p a ≡ true)
  index_func-eq-some p [] i h = cc
  index_func-eq-some p (x ∷ xs) zero h = (x, refl, ground arith)
  index_func-eq-some p (x ∷ xs) (suc i) h = index_func-eq-some p xs i (ground arith)

module _ {ℓ} {A : Type ℓ} (P Q : A → Type 0) where
  pub All-map : (xs : List A) → ((x : A) → P x → Q x) → All P xs → All Q xs
  All-map [] f h = tt
  All-map (x ∷ xs) f h = (f x h.0, All-map xs f h.1)

  -- An element that passes one test of a list whose elements all pass the other.
  pub Any-All : (xs : List A) → Any P xs → All Q xs → Any (λ x. P x × Q x) xs
  Any-All [] h k = absurd h
  Any-All (x ∷ xs) (inl h) k = inl (h, k.0)
  Any-All (x ∷ xs) (inr h) k = inr (Any-All xs h k.1)

  pub Any-map : (xs : List A) → ((x : A) → P x → Q x) → Any P xs → Any Q xs
  Any-map [] f h = absurd h
  Any-map (x ∷ xs) f (inl h) = inl (f x h)
  Any-map (x ∷ xs) f (inr h) = inr (Any-map xs f h)

  pub All-zip : (xs : List A) → All P xs → All Q xs → All (λ x. P x × Q x) xs
  All-zip [] h k = tt
  All-zip (x ∷ xs) h k = ((h.0, k.0), All-zip xs h.1 k.1)

module _ {ℓ} {A : Type ℓ} (P : A → Type 0) {B : Type 0} where
  pub Any-elim : (xs : List A) → ((x : A) → P x → B) → Any P xs → B
  Any-elim [] f h = absurd h
  Any-elim (x ∷ xs) f (inl h) = f x h
  Any-elim (x ∷ xs) f (inr h) = Any-elim xs f h

pub All-All : {A : Type 0} (P : A → Type 0) (xs : List A) → ((x : A) → P x) → All P xs
All-All P [] h = tt
All-All P (x ∷ xs) h = (h x, All-All P xs h)
