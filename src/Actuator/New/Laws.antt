-- ===== src/Actuator/New/Laws.antt =====
-- What an actuator that `New` returns works with.
use gardener_extension_shoot.Base.{◌≡◌, ◌⊎◌, ℕ, Option, none, some, List, Str, All}
use gardener_extension_shoot.Assets.{Fs, Collection}
use gardener_extension_shoot.Assets.Verify.{IsComplete}
use gardener_extension_shoot.Actuator.New.{Actuator}

module _ (digest : Str → List ℕ) (fs : Fs) where
  -- The collection is the one that was given, or it is verified.
  abbrev pub IsChosen : Option Collection → Collection → Type 0
  IsChosen given c = (given ≡ some c) ⊎ ((given ≡ none) × All (IsComplete digest) c.packs)

  -- The decoder is the one that was given, or else the other one.
  abbrev pub IsDecoderOf : {Decoder : Type 0} → Option Decoder → Decoder → Decoder → Type 0
  IsDecoderOf given universal d = (given ≡ some d) ⊎ ((given ≡ none) × (d ≡ universal))
