-- ===== src/Actuator/Names.antt =====
-- The names of managed resources.
use gardener_extension_shoot.Base.{◌≡◌, ◌≢◌, [], ◌∷◌, ◌++◌, Str, codes}
use gardener_extension_shoot.Actuator.{managed_resource_prefix, mr_name}

append_cancel_left : (s t u : Str) → s ++ t ≡ s ++ u → t ≡ u
append_cancel_left [] t u h = h
append_cancel_left (c ∷ s) t u h = append_cancel_left s t u (cc)

-- Packs with different names have different managed resources.
pub mr_name-injective : (m n : Str) → mr_name m ≡ mr_name n → m ≡ n
unfolding mr_name
mr_name-injective m n h = append_cancel_left (managed_resource_prefix ++ codes "-") m n h

pub mr_name-ne : (m n : Str) → m ≢ n → mr_name m ≢ mr_name n
mr_name-ne m n ne h = ne (mr_name-injective m n h)
