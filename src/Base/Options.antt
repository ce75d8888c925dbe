-- ===== src/Base/Options.antt =====
-- Functional options: the loop that a constructor runs over the options that it is given.
use mathlib.Core.List.{List, [], ◌∷◌}
use gardener_extension_shoot.Base.Errors.{Result, ok, ◌>>=◌}

-- `for _, opt := range opts { if err := opt(x); err != nil { return nil, err } }`
abbrev pub try_options : {E A : Type 0} → List (A → Result E A) → A → Result E A
try_options [] x = ok x
try_options (opt ∷ opts) x = opt x >>= λ x'. try_options opts x'
