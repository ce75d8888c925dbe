-- ===== src/Assets/Lookup.antt =====
-- `PackExists` and `GetPack` look for the same pack.
use mathlib.Core.Path.{subst}
use gardener_extension_shoot.Base.{
  ◌≡◌, refl, ◌↔◌, true, false, none, some, List, [], ◌∷◌, ok, err, arith, find, Bool-cases, inl,
  inr, contains_func, Str, Any, All, Bool,
}
use gardener_extension_shoot.Assets.{Pack, Collection, is_pack, pack_exists, get_pack, not_found}

-- The pack stands in the collection.
abbrev pub Provides : Str → Str → List Pack → Type 0
Provides name version = Any (λ p. (name ≡ p.name) × (version ≡ p.version))

module _ (name version : Str) where
  found :
      (packs : List Pack)
      → ((contains_func (is_pack name version) packs ≡ true) ↔ Provides name version packs)
  found [] = (λ h. cc, λ h. absurd h)
  found (p ∷ packs) = ground (arith, found packs)

  -- `PackExists` holds exactly if a pack of the collection has that name and that version.
  pub pack_exists_iff :
      (c : Collection) → (pack_exists c name version ≡ true) ↔ Provides name version c.packs
  unfolding pack_exists
  pack_exists_iff c = found c.packs

  got :
      (packs : List Pack)
      → contains_func (is_pack name version) packs ≡ true
      → (p : Pack) × (find (is_pack name version) packs ≡ some p)
        × (name ≡ p.name)
        × (version ≡ p.version)
  got [] h = absurd (cc)
  got (p ∷ packs) h = elim (Bool-cases (is_pack name version p)) [
    | inl e ↦ (p, ground arith, ground arith, ground arith)
    | inr e ↦
        let (q, here, same_name, same_version) = got packs (ground arith) in
        (q, ground arith, same_name, same_version)
  ]

  -- Where `PackExists` holds, `GetPack` returns a pack of that name and that version.
  pub get_pack-exists :
      (c : Collection)
      → pack_exists c name version ≡ true
      → (p : Pack) × (get_pack c name version ≡ ok p) × (name ≡ p.name) × (version ≡ p.version)
  unfolding pack_exists get_pack
  get_pack-exists c h = let (p, here, n, v) = got c.packs h in (p, rw (here, get_pack), n, v)

  lost :
      (packs : List Pack)
      → contains_func (is_pack name version) packs ≡ false
      → find (is_pack name version) packs ≡ none
  lost [] h = refl
  lost (p ∷ packs) h = ground (arith, lost packs)

  -- Where it does not, `GetPack` fails and names the pack.
  pub get_pack-not_exists :
      (c : Collection)
      → pack_exists c name version ≡ false
      → get_pack c name version ≡ err (not_found name version)
  unfolding pack_exists get_pack
  get_pack-not_exists c h = rw (lost c.packs h, get_pack)

find-All :
    {A : Type 0} (p : A → Bool) (Q : A → Type 0) (xs : List A) {x : A}
    → All Q xs
    → find p xs ≡ some x
    → Q x
find-All p Q [] h found = cc
find-All p Q (y ∷ ys) (first, h) found = elim (Bool-cases (p y)) [
  | inl yes_it ↦ subst Q (ground arith) first
  | inr no_it ↦ find-All p Q ys h (ground arith)
]

-- What holds of each pack of a collection holds of one that `GetPack` returns.
pub get_pack-All :
    (c : Collection) (name version : Str) (Q : Pack → Type 0) {asset : Pack}
    → All Q c.packs
    → get_pack c name version ≡ ok asset
    → Q asset
unfolding get_pack
get_pack-All c name version Q h found = find-All (is_pack name version) Q c.packs h (ground arith)
