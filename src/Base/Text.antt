-- ===== src/Base/Text.antt =====
-- Go strings, as the list of their code points, with the equality test that the code makes.
use Prim.Native.Nat.{ℕ}
use Prim.Native.Char.{code}
use Prim.Native.String.{String}
use mathlib.Core.Path.{◌≡◌}
use mathlib.Core.Logic.{◌↔◌, ◌≢◌, ite, dite}
use mathlib.Core.Bool.{Bool, true, false, ◌&&◌, Bool-discrete}
use mathlib.Core.List.{List, [], ◌∷◌}
use native.Mathlib.Omega.{arith}
use gardener_extension_shoot.Base.Logic.{eqb}

abbrev pub Str : Type 0
Str = List ℕ

-- The code points of a literal.
abbrev pub codes : String → Str
codes String.[] = []
codes (String.◌∷◌ c s) = code c ∷ codes s

same : Str → Str → Bool
same [] [] = true
same (a ∷ s) (b ∷ t) = eqb a b && same s t
same _ _ = false

same_iff : (s t : Str) → (same s t ≡ true) ↔ (s ≡ t)
unfolding same
same_iff [] [] = ground arith
same_iff (a ∷ s) (b ∷ t) = ground (arith, same_iff s t)
same_iff [] (b ∷ t) = ground arith
same_iff (a ∷ s) [] = ground arith

-- Shut in proofs, where a split on `s == t` yields the equation or its negation.
unfoldable pub str_dec : Discrete Str
unfolding same same_iff
str_dec s t =
    dite (Bool-discrete (same s t) true) (λ p. yes ((same_iff s t).0 p))
      (λ n. no (λ p. n ((same_iff s t).1 p)))

infix 50 ◌==◌
abbrev pub ◌==◌ : Str → Str → Bool
s == t = ite (str_dec s t) true false

-- Two texts that the test tells apart.
pub str_ne : (s t : Str) → (s == t) ≡ false → s ≢ t
str_ne s t h e = ground arith
