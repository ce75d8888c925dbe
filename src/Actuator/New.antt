-- ===== src/Actuator/New.antt =====
-- `New` of pkg/actuator/pack/actuator.go, its options, and the getters. The client, the resource
-- factory and the decoder are only handed on.
pub mod Laws
mod Tests
use gardener_extension_shoot.Base.{
  ℕ, Bool, true, false, Option, none, some, List, [], ◌∷◌, Result, ok, err, ◌>>=◌, wrap, Str, codes,
  try_options,
}
use gardener_extension_shoot.Base.Dict.{Dict}
use gardener_extension_shoot.Assets.{Fs, Collection}
use gardener_extension_shoot.Assets.New.{NewError, new_collection, with_skip_verify}

pub data Error : Type 0 where
  no_client : Error
  collection_failed : NewError → Error
  option_failed : Str → Error

-- What the getters `Name`, `ExtensionType` and `FinalizerSuffix` return.
abbrev pub actuator_name : Str
actuator_name = codes "shoot-pack"

abbrev pub actuator_extension_type : Str
actuator_extension_type = codes "shoot-pack"

abbrev pub actuator_finalizer_suffix : Str
actuator_finalizer_suffix = codes "gardener-extension-shoot-pack"

-- The decoder that is set, or else that of the client's scheme.
abbrev pub default_decoder : {Decoder : Type 0} → Decoder → Option Decoder → Decoder
default_decoder universal none = universal
default_decoder universal (some d) = d

-- The collection that is set, or else that of the embedded packs.
abbrev pub default_collection :
    (Str → List ℕ) → Option Fs → Option Collection → Result Error Collection
default_collection digest embedded none =
    wrap collection_failed (new_collection digest embedded (with_skip_verify false ∷ []))
default_collection digest embedded (some c) = ok c

module _ (Client Factory Decoder : Type 0) where
  -- `Actuator`, whose decoder and collection may be nil until `New` is done.
  pub record Actuator : Type 0 where
    pub client : Client
    pub decoder : Option Decoder
    pub resource_factory : Factory
    pub collection : Option Collection
    pub gardener_version : Str
    pub gardenlet_feature_gates : Dict Bool

  abbrev pub Setting : Type 0
  Setting = Actuator → Result Error Actuator

module _ {Client Factory Decoder : Type 0} where
  -- `WithDecoder`
  unfoldable pub with_decoder : Option Decoder → Setting Client Factory Decoder
  with_decoder d a = ok (record a { decoder = d })

  -- `WithGardenerVersion`
  unfoldable pub with_gardener_version : Str → Setting Client Factory Decoder
  with_gardener_version v a = ok (record a { gardener_version = v })

  -- `WithGardenletFeatures`
  unfoldable pub with_gardenlet_features : Dict Bool → Setting Client Factory Decoder
  with_gardenlet_features feats a = ok (record a { gardenlet_feature_gates = feats })

  -- `WithPackCollection`
  unfoldable pub with_pack_collection : Option Collection → Setting Client Factory Decoder
  with_pack_collection c a = ok (record a { collection = c })

  -- The actuator that the options are applied to.
  abbrev pub initial : Factory → Client → Actuator Client Factory Decoder
  initial factory c = record {
    client = c;
    decoder = none;
    resource_factory = factory;
    collection = none;
    gardener_version = [];
    gardenlet_feature_gates = [];
  }

  -- `New` after the options: the defaults.
  unfoldable pub with_defaults :
      (Str → List ℕ)
      → Option Fs
      → (Client → Decoder)
      → Actuator Client Factory Decoder
      → Result Error (Actuator Client Factory Decoder)
  with_defaults digest embedded universal act = do
    c ← default_collection digest embedded act.collection
    ok (record act {
      decoder = some (default_decoder (universal act.client) act.decoder);
      collection = some c;
    })

  -- `New`, of a client that may be nil.
  unfoldable pub new_actuator :
      (Str → List ℕ)
      → Option Fs
      → (Client → Decoder)
      → Factory
      → Option Client
      → List (Setting Client Factory Decoder)
      → Result Error (Actuator Client Factory Decoder)
  new_actuator digest embedded universal factory none opts = err no_client
  new_actuator digest embedded universal factory (some c) opts = do
    act ← try_options opts (initial factory c)
    with_defaults digest embedded universal act
