-- ===== src/Config/Scheme/Laws.antt =====
-- What a scheme knows and converts after the installation.
use gardener_extension_shoot.Base.{
  ◌≡◌, refl, sym, ◌∙◌, ap, Bool, ◌&&◌, ℕ, ◌+◌, Option, some, List, [], ◌∷◌, Result, ok, err, ◌>>=◌,
  >>=-eq-ok, ok-injective, Str, eqb, if◌then◌else◌,
}
use mathlib.Core.Path.{subst}
use gardener_extension_shoot.Config.V1alpha1.{
  convert_patch_to_config, convert_patch_from_config, convert_pack_to_config,
  convert_pack_from_config, convert_spec_to_config, convert_spec_from_config, convert_to_config,
  convert_from_config,
}
use gardener_extension_shoot.Config.Scheme.{
  Struct, pack_struct, config_struct, spec_struct, patch_struct, TypeName, external, internal,
  GroupVersion, Conversion, patches, packs, specs, configs, Machinery, external_version,
  internal_version, conversions, add_known_types, add_external_types, add_conversions,
  register_conversions, local_scheme_builder, install,
}

abbrev pub struct_code : Struct → ℕ
struct_code pack_struct = 0
struct_code config_struct = 1
struct_code spec_struct = 2
struct_code patch_struct = 3

abbrev pub code : TypeName → ℕ
code (external k) = struct_code k
code (internal k) = 4 + struct_code k

abbrev pub is_pair : TypeName → TypeName → TypeName → TypeName → Bool
is_pair from to a b = eqb (code a) (code from) && eqb (code b) (code to)

-- What is documented of a scheme: which types it knows by a group and version, and what it converts by.
pub record Registry (L : Machinery) : Type 1 where
  pub Knows : GroupVersion → TypeName → L.Scheme → Type 0
  pub converts : TypeName → TypeName → L.Scheme → Option (Conversion L.Meta)
  pub built_nil : (s : L.Scheme) → L.add_to_scheme [] s ≡ ok s
  pub built_cons :
      (f : L.Scheme → Result Str L.Scheme) (fs : List (L.Scheme → Result Str L.Scheme))
      (s : L.Scheme)
      → L.add_to_scheme (f ∷ fs) s ≡ (f s >>= L.add_to_scheme fs)
  pub known_added :
      (gv : GroupVersion) (t : TypeName) (s : L.Scheme)
      → Knows gv t (L.add_known_types gv (t ∷ []) s)
  pub known_kept :
      (gv gv' : GroupVersion) (ts : List TypeName) (t : TypeName) (s : L.Scheme)
      → Knows gv t s
      → Knows gv t (L.add_known_types gv' ts s)
  pub known_group :
      (gv gv' : GroupVersion) (t : TypeName) (s : L.Scheme)
      → Knows gv t s
      → Knows gv t (L.add_to_group_version gv' s)
  pub known_conversion :
      (gv : GroupVersion) (t from to : TypeName) (f : Conversion L.Meta) (s s' : L.Scheme)
      → L.add_conversion from to f s ≡ ok s'
      → Knows gv t s
      → Knows gv t s'
  pub known_priority :
      (gv gv' : GroupVersion) (t : TypeName) (s s' : L.Scheme)
      → L.set_version_priority gv' s ≡ ok s'
      → Knows gv t s
      → Knows gv t s'
  pub converts_known :
      (a b : TypeName) (gv : GroupVersion) (ts : List TypeName) (s : L.Scheme)
      → converts a b (L.add_known_types gv ts s) ≡ converts a b s
  pub converts_group :
      (a b : TypeName) (gv : GroupVersion) (s : L.Scheme)
      → converts a b (L.add_to_group_version gv s) ≡ converts a b s
  pub converts_added :
      (a b from to : TypeName) (f : Conversion L.Meta) (s s' : L.Scheme)
      → L.add_conversion from to f s ≡ ok s'
      → converts a b s' ≡ (if is_pair from to a b then some f else converts a b s)
  pub converts_priority :
      (a b : TypeName) (gv : GroupVersion) (s s' : L.Scheme)
      → L.set_version_priority gv s ≡ ok s'
      → converts a b s' ≡ converts a b s

-- The function that converts a struct of v1alpha1, and the one that converts it back.
abbrev pub conversion_to : {Meta : Type 0} → Struct → Conversion Meta
conversion_to pack_struct = packs convert_pack_to_config
conversion_to config_struct = configs convert_to_config
conversion_to spec_struct = specs convert_spec_to_config
conversion_to patch_struct = patches convert_patch_to_config

abbrev pub conversion_from : {Meta : Type 0} → Struct → Conversion Meta
conversion_from pack_struct = packs convert_pack_from_config
conversion_from config_struct = configs convert_from_config
conversion_from spec_struct = specs convert_spec_from_config
conversion_from patch_struct = patches convert_patch_from_config

-- The last conversion of a list for two types, if any, or else the given one.
abbrev last_conversion :
    {Meta : Type 0}
    → TypeName
    → TypeName
    → List (TypeName × TypeName × Conversion Meta)
    → Option (Conversion Meta)
    → Option (Conversion Meta)
last_conversion a b [] d = d
last_conversion a b ((from, to, f) ∷ fs) d =
    last_conversion a b fs (if is_pair from to a b then some f else d)

module _ (L : Machinery) (R : Registry L) where
  add_conversions-converts :
      (a b : TypeName) (fs : List (TypeName × TypeName × Conversion L.Meta)) (s t : L.Scheme)
      → add_conversions L fs s ≡ ok t
      → R.converts a b t ≡ last_conversion a b fs (R.converts a b s)
  unfolding add_conversions
  add_conversions-converts a b [] s t h = sym (ap (R.converts a b) (ok-injective h))
  add_conversions-converts a b ((from, to, f) ∷ fs) s t h =
      let (u, added, rest) = >>=-eq-ok (L.add_conversion from to f s) _ h in
      add_conversions-converts a b fs u t rest
      ∙ ap (last_conversion a b fs) (R.converts_added a b from to f s u added)

  add_conversions-Knows :
      (gv : GroupVersion) (t : TypeName) (fs : List (TypeName × TypeName × Conversion L.Meta))
      (s u : L.Scheme)
      → add_conversions L fs s ≡ ok u
      → R.Knows gv t s
      → R.Knows gv t u
  unfolding add_conversions
  add_conversions-Knows gv t [] s u h k = subst (R.Knows gv t) (ok-injective h) k
  add_conversions-Knows gv t ((from, to, f) ∷ fs) s u h k =
      let (s', added, rest) = >>=-eq-ok (L.add_conversion from to f s) _ h in
      add_conversions-Knows gv t fs s' u rest (R.known_conversion gv t from to f s s' added k)

  register_conversions-converts :
      (k : Struct) (s t : L.Scheme)
      → register_conversions L s ≡ ok t
      → (R.converts (external k) (internal k) t ≡ some (conversion_to k))
        × (R.converts (internal k) (external k) t ≡ some (conversion_from k))
  unfolding register_conversions
  register_conversions-converts pack_struct s t h = (
    add_conversions-converts _ _ (conversions L) s t h,
    add_conversions-converts _ _ (conversions L) s t h,
  )
  register_conversions-converts config_struct s t h = (
    add_conversions-converts _ _ (conversions L) s t h,
    add_conversions-converts _ _ (conversions L) s t h,
  )
  register_conversions-converts spec_struct s t h = (
    add_conversions-converts _ _ (conversions L) s t h,
    add_conversions-converts _ _ (conversions L) s t h,
  )
  register_conversions-converts patch_struct s t h = (
    add_conversions-converts _ _ (conversions L) s t h,
    add_conversions-converts _ _ (conversions L) s t h,
  )

  built_one : (f : L.Scheme → Result Str L.Scheme) (s : L.Scheme) → L.add_to_scheme (f ∷ []) s ≡ f s
  built_one f s = R.built_cons f [] s ∙ built_end (f s)
    where
      built_end : (m : Result Str L.Scheme) → (m >>= L.add_to_scheme []) ≡ m
      built_end (ok t) = R.built_nil t
      built_end (err e) = refl

  -- What a scheme knows and converts.
  pub record IsInstalled (t : L.Scheme) : Type 0 where
    pub internal_known : R.Knows (internal_version L) (internal config_struct) t
    pub external_known : R.Knows external_version (external config_struct) t
    pub to_internal : (k : Struct) → R.converts (external k) (internal k) t ≡ some (conversion_to k)
    pub to_external :
        (k : Struct) → R.converts (internal k) (external k) t ≡ some (conversion_from k)

  -- If Install does not panic, then the scheme knows the configuration under the internal and the
  -- external version, and converts each of the four structs to the other version and back by the
  -- function for it, whatever the scheme held before.
  pub install-IsInstalled : (s : L.Scheme) {t : L.Scheme} → install L s ≡ ok t → IsInstalled t
  unfolding install add_known_types add_external_types register_conversions
  install-IsInstalled s {t} h =
      let (s1, built, h1) = >>=-eq-ok (L.add_to_scheme (add_known_types L ∷ []) s) _ h in
      let (s2, built', last) = >>=-eq-ok (L.add_to_scheme (local_scheme_builder L) s1) _ h1 in
      let (u, registered, rest) =
        >>=-eq-ok (register_conversions L s1) _ (sym (R.built_cons _ _ s1) ∙ built') in
      let known = ok-injective (sym (built_one (add_known_types L) s) ∙ built) in
      let extended = ok-injective (sym (built_one (add_external_types L) u) ∙ rest) in
      let iv = internal_version L in
      let kept : (a b : TypeName) → R.converts a b t ≡ R.converts a b u = λ a b.
        R.converts_priority a b external_version s2 t last
        ∙ (ap (R.converts a b) (sym extended)
            ∙ (R.converts_group a b external_version _
                ∙ R.converts_known a b external_version (external config_struct ∷ []) u)) in
      let in_s1 : R.Knows iv (internal config_struct) s1 =
        subst (R.Knows iv (internal config_struct)) known (
          R.known_kept iv iv [] (internal config_struct) _
            (R.known_added iv (internal config_struct) s)) in
      let in_u =
        add_conversions-Knows iv (internal config_struct) (conversions L) s1 u registered in_s1 in
      let in_s2 : R.Knows iv (internal config_struct) s2 =
        subst (R.Knows iv (internal config_struct)) extended (
          R.known_group iv external_version (internal config_struct) _ (
            R.known_kept iv external_version (external config_struct ∷ []) (internal config_struct)
              u in_u)) in
      let external_in_s2 : R.Knows external_version (external config_struct) s2 =
        subst (R.Knows external_version (external config_struct)) extended (
          R.known_group external_version external_version (external config_struct) _
            (R.known_added external_version (external config_struct) u)) in
      record {
        internal_known =
            R.known_priority iv external_version (internal config_struct) s2 t last in_s2;
        external_known =
            R.known_priority external_version external_version (external config_struct) s2 t last
              external_in_s2;
        to_internal = λ k.
            kept (external k) (internal k) ∙ (register_conversions-converts k s1 u registered).0;
        to_external = λ k.
            kept (internal k) (external k) ∙ (register_conversions-converts k s1 u registered).1;
      }
