-- ===== src/Actuator/New/Tests.antt =====
-- An actuator over the packs of a given collection, and one over embedded packs.
use gardener_extension_shoot.Base.{ℕ, false, some, List, [], ◌∷◌, ok, err, Str, codes}
use gardener_extension_shoot.Assets.{Fs}
use gardener_extension_shoot.Actuator.New.{Actuator, Setting, with_gardener_version}

abbrev no_packs : Fs
no_packs = record {
  glob = λ pattern. ok [];
  open_file = λ path. err (codes "no such file");
  read_file = λ path. err (codes "no such file");
}

abbrev digest : Str → List ℕ
digest s = s

abbrev universal : ℕ → ℕ
universal client = client

abbrev opts : List (Setting ℕ ℕ ℕ)
opts = with_gardener_version (codes "v1.137.0") ∷ []

abbrev actuator : Actuator ℕ ℕ ℕ
actuator = record {
  client = 5;
  decoder = some 5;
  resource_factory = 1;
  collection = some (record { packs = []; file_system = no_packs; skip_verify = false });
  gardener_version = codes "v1.137.0";
  gardenlet_feature_gates = [];
}
