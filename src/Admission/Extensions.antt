-- ===== src/Admission/Extensions.antt =====
-- The extensions of a shoot: which one getExtension returns, and when it is disabled.
use gardener_extension_shoot.Base.{
  ◌≡◌, refl, ◌≢◌, ◌↔◌, ◌⊎◌, Bool, true, Option, none, some, List, [], ◌∷◌, ok, err, arith, Str,
  ◌==◌, find, All,
}
use gardener_extension_shoot.Admission.{
  Shoot, ShootExtension, extension_not_found, is_disabled, get_extension,
}

-- The first of the extensions that has the type.
abbrev pub IsFirst : Str → ShootExtension → List ShootExtension → Type 0
IsFirst extension_type ext [] = ⊥
IsFirst extension_type ext (e ∷ exts) =
    ((e.type_name ≡ extension_type) × (e ≡ ext))
    ⊎ ((e.type_name ≢ extension_type) × IsFirst extension_type ext exts)

abbrev pub AreOthers : Str → List ShootExtension → Type 0
AreOthers extension_type exts = All (λ ext. ext.type_name ≢ extension_type) exts

find-IsFirst :
    (extension_type : Str) (exts : List ShootExtension) (ext : ShootExtension)
    → (find (λ e. e.type_name == extension_type) exts ≡ some ext) ↔ IsFirst extension_type ext exts
find-IsFirst extension_type [] ext = (λ h. cc, λ h. absurd h)
find-IsFirst extension_type (e ∷ exts) ext = ground (arith, find-IsFirst extension_type exts ext)

find-AreOthers :
    (extension_type : Str) (exts : List ShootExtension)
    → (find (λ e. e.type_name == extension_type) exts ≡ none) ↔ AreOthers extension_type exts
find-AreOthers extension_type [] = (λ h. tt, λ h. refl)
find-AreOthers extension_type (e ∷ exts) = ground (arith, find-AreOthers extension_type exts)

pub get_extension-IsFirst :
    (extension_type : Str) (shoot : Shoot) (ext : ShootExtension)
    → (get_extension extension_type (some shoot) ≡ ok ext)
      ↔ IsFirst extension_type ext shoot.extensions
unfolding get_extension
get_extension-IsFirst extension_type shoot ext =
    ground (arith, find-IsFirst extension_type shoot.extensions ext)

pub get_extension-AreOthers :
    (extension_type : Str) (shoot : Shoot)
    → (get_extension extension_type (some shoot) ≡ err (extension_not_found extension_type))
      ↔ AreOthers extension_type shoot.extensions
unfolding get_extension
get_extension-AreOthers extension_type shoot =
    ground (arith, find-AreOthers extension_type shoot.extensions)

pub is_disabled_iff :
    (disabled : Option Bool) → (is_disabled disabled ≡ true) ↔ (disabled ≡ some true)
is_disabled_iff none = ground arith
is_disabled_iff (some b) = ground arith
