-- ===== src/Config/Scheme/Tests.antt =====
-- The installation into a scheme that is a list of known types and a table of conversions.
use mathlib.Core.Path.{subst}
use gardener_extension_shoot.Base.{
  ◌≡◌, refl, sym, ap, ok-injective, Option, none, some, List, [], ◌∷◌, ◌++◌, Any, Result, ok, ◌>>=◌,
  Str, codes, if◌then◌else◌, inl, inr, ℕ,
}
use gardener_extension_shoot.Config.Scheme.{
  TypeName, GroupVersion, Conversion, Machinery, install, add_known_types, add_external_types,
  add_conversions, register_conversions,
}
use gardener_extension_shoot.Config.Scheme.Laws.{
  Registry, IsInstalled, install-IsInstalled, is_pair,
}

record TestScheme : Type 0 where
  known : List (GroupVersion × TypeName)
  table : TypeName → TypeName → Option (Conversion ℕ)

abbrev tagged : GroupVersion → List TypeName → List (GroupVersion × TypeName)
tagged gv [] = []
tagged gv (t ∷ ts) = (gv, t) ∷ tagged gv ts

abbrev add_all : List (TestScheme → Result Str TestScheme) → TestScheme → Result Str TestScheme
add_all [] s = ok s
add_all (f ∷ fs) s = f s >>= add_all fs

abbrev machinery : Machinery
machinery = record {
  Meta = ℕ;
  Scheme = TestScheme;
  version_internal = codes "__internal";
  add_known_types = λ gv ts s. record s { known = tagged gv ts ++ s.known };
  add_to_group_version = λ gv s. s;
  add_conversion = λ from to f s.
      ok (record s { table = λ a b. if is_pair from to a b then some f else s.table a b });
  set_version_priority = λ gv s. ok s;
  add_to_scheme = add_all;
}

Any-append : {A : Type 0} (P : A → Type 0) (xs ys : List A) → Any P ys → Any P (xs ++ ys)
Any-append P [] ys h = h
Any-append P (x ∷ xs) ys h = inr (Any-append P xs ys h)

abbrev registry : Registry machinery
registry = record {
  Knows = λ gv t s. Any (λ e. e ≡ (gv, t)) s.known;
  converts = λ a b s. s.table a b;
  built_nil = λ s. refl;
  built_cons = λ f fs s. refl;
  known_added = λ gv t s. inl refl;
  known_kept = λ gv gv' ts t s h. Any-append _ (tagged gv' ts) s.known h;
  known_group = λ gv gv' t s h. h;
  known_conversion =
      λ gv t from to f s s' e h. subst (λ x. Any (λ e. e ≡ (gv, t)) x.known) (ok-injective e) h;
  known_priority =
      λ gv gv' t s s' e h. subst (λ x. Any (λ e. e ≡ (gv, t)) x.known) (ok-injective e) h;
  converts_known = λ a b gv ts s. refl;
  converts_group = λ a b gv s. refl;
  converts_added = λ a b from to f s s' e. sym (ap (λ x. x.table a b) (ok-injective e));
  converts_priority = λ a b gv s s' e. sym (ap (λ x. x.table a b) (ok-injective e));
}

abbrev empty : TestScheme
empty = record { known = []; table = λ a b. none }

installed : (t : TestScheme) × (install machinery empty ≡ ok t)
unfolding install add_known_types add_external_types register_conversions add_conversions
installed = (_, refl)

install-IsInstalled_example : IsInstalled machinery registry installed.0
install-IsInstalled_example = install-IsInstalled machinery registry empty installed.1
