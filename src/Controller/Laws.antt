-- ===== src/Controller/Laws.antt =====
-- What a controller that `New` returns is set up with.
use gardener_extension_shoot.Base.{
  ◌≡◌, refl, sym, ap, ◌∙◌, ◌≢◌, ◌↔◌, ◌⊎◌, none, List, [], ◌∷◌, ◌++◌, map, ok, append-nil,
  append_assoc, >>=-eq-ok, arith, try_options,
}
use gardener_extension_shoot.Controller.{
  Runtime, Controller, Setting, initial, default_suffix, check_controller, new_controller,
  or_default, setup_with_manager, add_args, with_predicate,
}

module _ (R : Runtime) where
  -- What an extension controller needs: an actuator, names, and classes.
  pub record IsConfigured (c : Controller R) : Type 0 where
    pub actuator : c.actuator ≢ none
    pub name : c.name ≢ []
    pub extension_type : c.extension_type ≢ []
    pub extension_classes : c.extension_classes ≢ []

  new_controller-eq-ok :
      (opts : List (Setting R)) {c : Controller R}
      → new_controller R opts ≡ ok c
      → (c0 : Controller R) × (try_options opts (initial R) ≡ ok c0)
        × (check_controller R c0 ≡ ok c)
  unfolding new_controller
  new_controller-eq-ok opts h = >>=-eq-ok (try_options opts (initial R)) (check_controller R) h

  ok-new_controller :
      (opts : List (Setting R)) {c0 c : Controller R}
      → try_options opts (initial R) ≡ ok c0
      → check_controller R c0 ≡ ok c
      → new_controller R opts ≡ ok c
  unfolding new_controller
  ok-new_controller opts h k = ground arith

  check_controller-IsConfigured :
      (c0 : Controller R) {c : Controller R}
      → check_controller R c0 ≡ ok c
      → IsConfigured c0 × (default_suffix R c0 ≡ c)
  unfolding check_controller
  check_controller-IsConfigured c0 h = (
    record {
      actuator = ground arith;
      name = ground arith;
      extension_type = ground arith;
      extension_classes = ground arith;
    },
    ground arith,
  )

  check_controller-ok :
      (c0 : Controller R) → IsConfigured c0 → check_controller R c0 ≡ ok (default_suffix R c0)
  unfolding check_controller
  check_controller-ok c0 h =
      let acts = h.actuator in
      let named = h.name in
      let typed = h.extension_type in let classed = h.extension_classes in ground arith

  -- The first with the suffix that it has, or with its name for one where it has none.
  abbrev pub IsDefaulted : Controller R → Controller R → Type 0
  IsDefaulted c0 c =
      ((c0.finalizer_suffix ≢ []) × (c ≡ c0))
      ⊎ ((c0.finalizer_suffix ≡ []) × (c ≡ record c0 { finalizer_suffix = c0.name }))

  default_suffix_iff : (c0 c : Controller R) → (default_suffix R c0 ≡ c) ↔ IsDefaulted c0 c
  default_suffix_iff c0 c = ground arith

  -- `New` returns a controller exactly if its options succeed and leave a controller with an
  -- actuator, a name, an extension type and a class; it is that controller, with the finalizer
  -- suffix that the options leave, or with its name for one where they leave none.
  pub new_controller_iff :
      (opts : List (Setting R)) (c : Controller R)
      → (new_controller R opts ≡ ok c) ↔ (
          (c0 : Controller R) × (try_options opts (initial R) ≡ ok c0)
          × IsConfigured c0
          × IsDefaulted c0 c)
  new_controller_iff opts c = (
    λ h.
        let (c0, applied, checked) = new_controller-eq-ok opts h in
        let (configured, same) = check_controller-IsConfigured c0 checked in
        (c0, applied, configured, (default_suffix_iff c0 c).0 same),
    λ (c0, applied, configured, defaulted).
        let same = (default_suffix_iff c0 c).1 defaulted in
        ok-new_controller opts applied (check_controller-ok c0 configured ∙ ap (λ d. ok d) same),
  )

  setup-suffix :
      (c0 : Controller R)
      → c0.name ≢ []
      → (setup_with_manager R (default_suffix R c0)).1.finalizer_suffix ≢ []
  unfolding setup_with_manager
  setup-suffix c0 named = ground arith

  -- A controller that `New` returns is added to the manager with a finalizer suffix that is not
  -- empty, also where no option set one.
  pub new_controller-suffix :
      (opts : List (Setting R)) {c : Controller R}
      → new_controller R opts ≡ ok c
      → (setup_with_manager R c).1.finalizer_suffix ≢ []
  new_controller-suffix opts {c} h =
      let (c0, applied, checked) = new_controller-eq-ok opts h in
      let (configured, same) = check_controller-IsConfigured c0 checked in
      rw (← same) (setup-suffix c0 configured.name)

  -- Options that give predicates add them behind those that there are, in their order.
  try_options-with_predicate :
      (preds : List R.Predicate) (c : Controller R)
      → try_options (map (with_predicate R) preds) c
        ≡ ok (record c { predicates = c.predicates ++ preds })
  unfolding with_predicate
  try_options-with_predicate [] c =
      ap (λ ps. ok (record c { predicates = ps })) (sym (append-nil c.predicates))
  try_options-with_predicate (pred ∷ preds) c =
      try_options-with_predicate preds (record c { predicates = c.predicates ++ (pred ∷ []) })
      ∙ ap (λ ps. ok (record c { predicates = ps })) (append_assoc c.predicates (pred ∷ []) preds)

  or_default_self : (preds : List R.Predicate) → or_default R preds preds ≡ preds
  or_default_self [] = refl
  or_default_self (pred ∷ preds) = refl

  or_default-idempotent :
      (defaults preds : List R.Predicate)
      → or_default R defaults (or_default R defaults preds) ≡ or_default R defaults preds
  or_default-idempotent defaults [] = or_default_self defaults
  or_default-idempotent defaults (pred ∷ preds) = refl

  -- A second setup with the manager changes neither the controller nor what it is added with.
  setup_with_manager-idempotent :
      (c : Controller R) → setup_with_manager R (setup_with_manager R c).0 ≡ setup_with_manager R c
  unfolding setup_with_manager
  setup_with_manager-idempotent c =
      let defaults = R.default_predicates c.ignore_operation_annotation in
      ap (λ ps. (record c { predicates = ps }, add_args R c ps))
        (or_default-idempotent defaults c.predicates)
