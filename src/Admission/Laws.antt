-- ===== src/Admission/Laws.antt =====
-- Which shoots the validator admits.
use gardener_extension_shoot.Base.{
  ◌≡◌, refl, sym, ◌∙◌, ◌≢◌, ◌↔◌, ◌⊎◌, ℕ, inl, inr, true, false, Option, none, some, List, [], ◌∷◌,
  ok, err, arith, Str, All, Any, index_func, Bool-cases, Option-cases,
}
use gardener_extension_shoot.Config.{PatchSpec, Pack, PackConfig, pack_string}
use gardener_extension_shoot.Config.Validation.{validate}
use gardener_extension_shoot.Config.Validation.Laws.{IsValid, validate-iff-IsValid}
use gardener_extension_shoot.Assets.{Collection}
use gardener_extension_shoot.Assets.Lookup.{Provides, pack_exists_iff}
use gardener_extension_shoot.Platform.{NamedReference}
use gardener_extension_shoot.Actuator.Render.{is_secret_ref, secret_kind, core_version}
use gardener_extension_shoot.Admission.Extensions.{
  IsFirst, AreOthers, get_extension-IsFirst, get_extension-AreOthers, is_disabled_iff,
}
use gardener_extension_shoot.Admission.{
  Shoot, ShootExtension, Object, shoot_object, other_object, Decoder, extension_not_found,
  is_disabled, get_extension, validate_patches, validate_packs, validate_provider_config,
  validate_extension, validate_object,
}

-- The shoot refers to a secret by that name.
abbrev pub HasSecret : List NamedReference → Str → Type 0
HasSecret refs name =
    Any (λ r. (r.name ≡ name) × (r.kind ≡ secret_kind) × (r.api_version ≡ core_version)) refs

pub index_func-HasSecret :
    (name : Str) (refs : List NamedReference)
    → (index_func (is_secret_ref name) refs ≡ none → ⊥) ↔ HasSecret refs name
index_func-HasSecret name [] = (λ h. absurd (h refl), λ h. absurd h)
index_func-HasSecret name (r ∷ refs) = ground (arith, index_func-HasSecret name refs)

abbrev pub HasSecrets : {S : Type 0} → List NamedReference → List (PatchSpec S) → Type 0
HasSecrets refs patches = All (λ patch. HasSecret refs patch.resource_ref) patches

module _ {S : Type 0} (c : Collection) (refs : List NamedReference) where
  -- The collection has the pack, and the shoot the secrets of its patches.
  abbrev pub IsAvailable : Pack S → Type 0
  IsAvailable pack = Provides pack.name pack.version c.packs × HasSecrets refs pack.patches

  pub record IsAdmissible (cfg : PackConfig S) : Type 0 where
    pub valid : IsValid cfg
    pub available : All IsAvailable cfg.spec.packs

  validate_patches_iff :
      (name : Str) (patches : List (PatchSpec S))
      → (validate_patches name refs patches ≡ none) ↔ HasSecrets refs patches
  unfolding validate_patches
  validate_patches_iff name [] = (λ h. tt, λ h. refl)
  validate_patches_iff name (patch ∷ patches) =
      ground
        (arith, index_func-HasSecret patch.resource_ref refs, validate_patches_iff name patches)

  validate_packs_iff :
      (packs : List (Pack S)) → (validate_packs c refs packs ≡ none) ↔ All IsAvailable packs
  unfolding validate_packs
  validate_packs_iff [] = (λ h. tt, λ h. refl)
  validate_packs_iff (pack ∷ packs) = ground (
    arith,
    pack_exists_iff pack.name pack.version c,
    validate_patches_iff (pack_string pack) pack.patches,
    validate_packs_iff packs,
  )

module _ {S : Type 0} (extension_type : Str) (decode : Decoder S) (c : Collection) where
  -- The provider config decodes to a configuration that the shoot may have.
  abbrev pub IsAdmitted : List NamedReference → Option Str → Type 0
  IsAdmitted refs config =
      (raw : Str) × (cfg : PackConfig S) × (config ≡ some raw)
      × (decode raw ≡ ok cfg)
      × IsAdmissible c refs cfg

  provider_config-none :
      (refs : List NamedReference) {config : Option Str}
      → validate_provider_config extension_type decode c refs config ≡ none
      → (raw : Str) × (cfg : PackConfig S) × (config ≡ some raw)
        × (decode raw ≡ ok cfg)
        × (validate cfg ≡ none)
        × (validate_packs c refs cfg.spec.packs ≡ none)
  unfolding validate_provider_config
  provider_config-none refs h = ground arith

  none-provider_config :
      (refs : List NamedReference) {config : Option Str} {raw : Str} {cfg : PackConfig S}
      → config ≡ some raw
      → decode raw ≡ ok cfg
      → validate cfg ≡ none
      → validate_packs c refs cfg.spec.packs ≡ none
      → validate_provider_config extension_type decode c refs config ≡ none
  unfolding validate_provider_config
  none-provider_config refs given decoded valid packs = ground arith

  pub validate_provider_config_iff :
      (refs : List NamedReference) (config : Option Str)
      → (validate_provider_config extension_type decode c refs config ≡ none)
        ↔ IsAdmitted refs config
  validate_provider_config_iff refs config = (
    λ h.
        let (raw, cfg, given, decoded, valid, packs) = provider_config-none refs h in
        (
          raw,
          cfg,
          given,
          decoded,
          record {
            valid = (validate-iff-IsValid cfg).0 valid;
            available = (validate_packs_iff c refs cfg.spec.packs).0 packs;
          },
        ),
    λ (raw, cfg, given, decoded, admissible).
        none-provider_config refs given decoded ((validate-iff-IsValid cfg).1 admissible.valid)
          ((validate_packs_iff c refs cfg.spec.packs).1 admissible.available),
  )

  -- The first extension of the validator's type, if there is one, is disabled or is admitted.
  abbrev pub IsAccepted : Shoot → Type 0
  IsAccepted shoot =
      AreOthers extension_type shoot.extensions
      ⊎ ((ext : ShootExtension) × IsFirst extension_type ext shoot.extensions
          × ((ext.disabled ≡ some true) ⊎ IsAdmitted shoot.resources ext.provider_config))

  get_extension-cases :
      (shoot : Shoot)
      → (get_extension extension_type (some shoot) ≡ err (extension_not_found extension_type))
        ⊎ ((ext : ShootExtension) × (get_extension extension_type (some shoot) ≡ ok ext))
  unfolding get_extension
  get_extension-cases shoot = ground arith

  validate_extension-disabled :
      (shoot : Shoot) (ext : ShootExtension)
      → get_extension extension_type (some shoot) ≡ ok ext
      → is_disabled ext.disabled ≡ true
      → validate_extension extension_type decode c shoot ≡ none
  unfolding validate_extension
  validate_extension-disabled shoot ext found off = ground arith

  validate_extension-enabled :
      (shoot : Shoot) (ext : ShootExtension)
      → get_extension extension_type (some shoot) ≡ ok ext
      → is_disabled ext.disabled ≡ false
      → validate_extension extension_type decode c shoot
        ≡ validate_provider_config extension_type decode c shoot.resources ext.provider_config
  unfolding validate_extension
  validate_extension-enabled shoot ext found on = ground arith

  validate_extension-not_found :
      (shoot : Shoot)
      → get_extension extension_type (some shoot) ≡ err (extension_not_found extension_type)
      → validate_extension extension_type decode c shoot ≡ none
  unfolding validate_extension
  validate_extension-not_found shoot lost = ground arith

  validate_extension-IsAccepted :
      (shoot : Shoot) → validate_extension extension_type decode c shoot ≡ none → IsAccepted shoot
  validate_extension-IsAccepted shoot h = elim (get_extension-cases shoot) [
    | inl lost ↦ inl ((get_extension-AreOthers extension_type shoot).0 lost)
    | inr (ext, found) ↦
        let first = (get_extension-IsFirst extension_type shoot ext).0 found in
        elim (Bool-cases (is_disabled ext.disabled)) [
          | inl off ↦ inr (ext, first, inl ((is_disabled_iff ext.disabled).0 off))
          | inr on ↦ inr (
            ext,
            first,
            inr (
                (validate_provider_config_iff shoot.resources ext.provider_config).0
                  (sym (validate_extension-enabled shoot ext found on) ∙ h)),
          )
        ]
  ]

  IsAccepted-validate_extension :
      (shoot : Shoot) → IsAccepted shoot → validate_extension extension_type decode c shoot ≡ none
  IsAccepted-validate_extension shoot accepted = elim accepted [
    | inl others ↦
        validate_extension-not_found shoot ((get_extension-AreOthers extension_type shoot).1 others)
    | inr (ext, first, inl off) ↦
        validate_extension-disabled shoot ext
          ((get_extension-IsFirst extension_type shoot ext).1 first)
          ((is_disabled_iff ext.disabled).1 off)
    | inr (ext, first, inr admitted) ↦
        let found = (get_extension-IsFirst extension_type shoot ext).1 first in
        elim (Bool-cases (is_disabled ext.disabled)) [
          | inl off ↦ validate_extension-disabled shoot ext found off
          | inr on ↦
              validate_extension-enabled shoot ext found on
              ∙ (validate_provider_config_iff shoot.resources ext.provider_config).1 admitted
        ]
  ]

  -- The object is a shoot that is being deleted, or one whose extension is accepted.
  abbrev pub IsWelcome : Object → Type 0
  IsWelcome (other_object t) = ⊥
  IsWelcome (shoot_object shoot) = (shoot.deletion_timestamp ≢ none) ⊎ IsAccepted shoot

  validate_object-deleted :
      (old_obj : Object) (shoot : Shoot) {t : ℕ}
      → shoot.deletion_timestamp ≡ some t
      → validate_object extension_type decode c (shoot_object shoot) old_obj ≡ none
  unfolding validate_object
  validate_object-deleted old_obj shoot h = ground arith

  validate_object-alive :
      (old_obj : Object) (shoot : Shoot)
      → shoot.deletion_timestamp ≡ none
      → validate_object extension_type decode c (shoot_object shoot) old_obj
        ≡ validate_extension extension_type decode c shoot
  unfolding validate_object
  validate_object-alive old_obj shoot h = ground arith

  -- The validator admits an object exactly if it is a shoot that is being deleted, that has no
  -- extension of the type, or whose first such extension is disabled or has a provider config that
  -- decodes to a valid configuration, all of whose packs the collection has, and all of whose patches
  -- name secrets that the shoot refers to; the old object plays no part.
  pub validate_object_iff :
      (new_obj old_obj : Object)
      → (validate_object extension_type decode c new_obj old_obj ≡ none) ↔ IsWelcome new_obj
  unfolding validate_object
  validate_object_iff (other_object t) old_obj = (λ h. cc, λ h. absurd h)
  validate_object_iff (shoot_object shoot) old_obj = elim (Option-cases shoot.deletion_timestamp) [
    | inl alive ↦ (
      λ h. inr (
          validate_extension-IsAccepted shoot
            (sym (validate_object-alive old_obj shoot alive) ∙ h)),
      λ welcome. elim welcome [
        | inl deleted ↦ absurd (deleted alive)
        | inr accepted ↦
            validate_object-alive old_obj shoot alive ∙ IsAccepted-validate_extension shoot accepted
      ],
    )
    | inr (t, deleted) ↦
        (λ _. inl (λ alive. cc), λ _. validate_object-deleted old_obj shoot deleted)
  ]

  pub validate_object-IsAdmitted :
      (shoot : Shoot) (old_obj : Object) (ext : ShootExtension)
      → shoot.deletion_timestamp ≡ none
      → get_extension extension_type (some shoot) ≡ ok ext
      → is_disabled ext.disabled ≡ false
      → validate_object extension_type decode c (shoot_object shoot) old_obj ≡ none
      → IsAdmitted shoot.resources ext.provider_config
  validate_object-IsAdmitted shoot old_obj ext alive found on h =
      (validate_provider_config_iff shoot.resources ext.provider_config).0 (
        sym (validate_extension-enabled shoot ext found on)
        ∙ sym (validate_object-alive old_obj shoot alive)
        ∙ h)
