-- ===== src/Assets/Verify.antt =====
-- What `Verify` accepts: packs that are complete, and whose files have the sums that they list.
use gardener_extension_shoot.Base.{
  ◌≡◌, refl, ◌≢◌, ◌↔◌, Bool, true, false, Option, none, some, List, [], ◌∷◌, ◌++◌, ok, arith, Str,
  ◌==◌, All, ℕ, Result-cases, inl, inr,
}
use gardener_extension_shoot.Go.Strings.{equal_fold, hex}
use gardener_extension_shoot.Assets.{
  Resource, Pack, Collection, VerifyError, missing_pack_name, missing_version, missing_description,
  no_resources, read, new_aggregate, append_if, append_error, has_none, verify_resource,
  verify_resources, verify_pack, verify_packs, verify,
}

append-ne-nil : {E : Type 0} (errs : List E) (e : E) → errs ++ (e ∷ []) ≢ []
append-ne-nil [] e h = cc
append-ne-nil (d ∷ errs) e h = cc

append_if-eq-nil :
    {E : Type 0} (b : Bool) (e : E) (errs : List E)
    → (append_if b e errs ≡ []) ↔ ((b ≡ false) × (errs ≡ []))
append_if-eq-nil true e errs = (λ h. absurd (append-ne-nil errs e h), λ h. cc (h.0))
append_if-eq-nil false e errs = (λ h. (refl, h), λ h. h.1)

append_error-eq-nil :
    {E : Type 0} (o : Option E) (errs : List E)
    → (append_error o errs ≡ []) ↔ ((o ≡ none) × (errs ≡ []))
append_error-eq-nil none errs = (λ h. (refl, h), λ h. h.1)
append_error-eq-nil (some e) errs = (λ h. absurd (append-ne-nil errs e h), λ h. cc (h.0))

new_aggregate-eq-none : {E : Type 0} (errs : List E) → (new_aggregate errs ≡ none) ↔ (errs ≡ [])
new_aggregate-eq-none [] = (λ h. refl, λ h. refl)
new_aggregate-eq-none (e ∷ errs) = (λ h. cc, λ h. cc)

has_none_iff : (rs : List Resource) → (has_none rs ≡ false) ↔ (rs ≢ [])
has_none_iff [] = (λ h. absurd (cc), λ h. absurd (h refl))
has_none_iff (r ∷ rs) = (λ h e. cc, λ h. refl)

-- A string that passes the test for emptiness.
is_empty_iff : (s : Str) → ((s == []) ≡ false) ↔ (s ≢ [])
is_empty_iff s = ground arith

module _ (digest : Str → List ℕ) where
  -- The resource lists a sum, its file can be read, and the file has that sum.
  pub record IsSound (r : Resource) : Type 0 where
    pub listed : r.sha256 ≢ []
    pub content : Str
    pub readable : read r ≡ ok content
    pub matches : equal_fold r.sha256 (hex (digest content)) ≡ true

  -- The pack has a name, a version, a description and resources, all sound.
  pub record IsComplete (p : Pack) : Type 0 where
    pub name : p.name ≢ []
    pub version : p.version ≢ []
    pub description : p.description ≢ []
    pub resources : p.resources ≢ []
    pub sound : All IsSound p.resources

  verify_resource-IsSound : (r : Resource) → verify_resource digest r ≡ none → IsSound r
  unfolding verify_resource
  verify_resource-IsSound r h = elim (Result-cases (read r)) [
    | inl (content, e) ↦ record {
      listed = ground arith;
      content = content;
      readable = e;
      matches = ground arith;
    }
    | inr (e, failed) ↦ absurd (ground arith)
  ]

  verify_resource_complete : (r : Resource) → IsSound r → verify_resource digest r ≡ none
  unfolding verify_resource
  verify_resource_complete r s = ground (arith, s.listed, s.readable, s.matches)

  verify_resources_iff :
      (rs : List Resource) (errs : List VerifyError)
      → (verify_resources digest rs errs ≡ []) ↔ (All IsSound rs × (errs ≡ []))
  unfolding verify_resources
  verify_resources_iff [] errs = (λ h. (tt, h), λ h. h.1)
  verify_resources_iff (r ∷ rs) errs =
      let rest = verify_resources_iff rs (append_error (verify_resource digest r) errs) in
      let first = append_error-eq-nil (verify_resource digest r) errs in
      (
        λ h.
            let (sound, before) = rest.0 h in
            let (one, clean) = first.0 before in ((verify_resource-IsSound r one, sound), clean),
        λ ((one, sound), clean). rest.1 (sound, first.1 (verify_resource_complete r one, clean)),
      )

  -- `Pack.Verify` returns nil exactly for the packs that are complete: with a name, a version, a
  -- description and a resource, each resource listed with the sum of the content that is read, up
  -- to the case of its digits.
  pub verify_pack-iff-IsComplete : (p : Pack) → (verify_pack digest p ≡ none) ↔ IsComplete p
  unfolding verify_pack
  verify_pack-iff-IsComplete p =
      let a = append_if (p.name == []) missing_pack_name [] in
      let b = append_if (p.version == []) (missing_version p.name) a in
      let c = append_if (p.description == []) (missing_description p.name p.version) b in
      let d = append_if (has_none p.resources) (no_resources p.name p.version) c in
      let whole = new_aggregate-eq-none (verify_resources digest p.resources d) in
      let loop = verify_resources_iff p.resources d in
      let at_d = append_if-eq-nil (has_none p.resources) (no_resources p.name p.version) c in
      let at_c = append_if-eq-nil (p.description == []) (missing_description p.name p.version) b in
      let at_b = append_if-eq-nil (p.version == []) (missing_version p.name) a in
      let at_a = append_if-eq-nil (p.name == []) missing_pack_name [] in
      (
        λ h.
            let (sound, d_nil) = loop.0 (whole.0 h) in
            let (some_resource, c_nil) = at_d.0 d_nil in
            let (description, b_nil) = at_c.0 c_nil in
            let (version, a_nil) = at_b.0 b_nil in
            let (name, _) = at_a.0 a_nil in
            record {
              name = (is_empty_iff p.name).0 name;
              version = (is_empty_iff p.version).0 version;
              description = (is_empty_iff p.description).0 description;
              resources = (has_none_iff p.resources).0 some_resource;
              sound = sound;
            },
        λ k.
            let a_nil = at_a.1 ((is_empty_iff p.name).1 k.name, refl) in
            let b_nil = at_b.1 ((is_empty_iff p.version).1 k.version, a_nil) in
            let c_nil = at_c.1 ((is_empty_iff p.description).1 k.description, b_nil) in
            let d_nil = at_d.1 ((has_none_iff p.resources).1 k.resources, c_nil) in
            whole.1 (loop.1 (k.sound, d_nil)),
      )

  verify_packs_iff :
      (ps : List Pack) (errs : List (List VerifyError))
      → (verify_packs digest ps errs ≡ []) ↔ (All IsComplete ps × (errs ≡ []))
  unfolding verify_packs
  verify_packs_iff [] errs = (λ h. (tt, h), λ h. h.1)
  verify_packs_iff (p ∷ ps) errs =
      let rest = verify_packs_iff ps (append_error (verify_pack digest p) errs) in
      let first = append_error-eq-nil (verify_pack digest p) errs in
      let one = verify_pack-iff-IsComplete p in
      (
        λ h.
            let (complete, before) = rest.0 h in
            let (passed, clean) = first.0 before in ((one.0 passed, complete), clean),
        λ ((this, complete), clean). rest.1 (complete, first.1 (one.1 this, clean)),
      )

  -- `Collection.Verify` returns nil exactly if every pack of the collection is complete.
  pub verify_iff : (c : Collection) → (verify digest c ≡ none) ↔ All IsComplete c.packs
  unfolding verify
  verify_iff c =
      let whole = new_aggregate-eq-none (verify_packs digest c.packs []) in
      let loop = verify_packs_iff c.packs [] in
      (λ h. (loop.0 (whole.0 h)).0, λ h. whole.1 (loop.1 (h, refl)))
