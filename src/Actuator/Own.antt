-- ===== src/Actuator/Own.antt =====
-- What a namespace looks like, and calls for managed resources whose outcome is up to that.
use gardener_extension_shoot.Base.{◌≡◌, sym, ◌∙◌, inr, Bool, Option, Str, str_dec}
use gardener_extension_shoot.Platform.{Platform, Managed, Steady, Local, Looks, View}

module _ (P : Platform) (view : View P) (ns : Str) where
  pub Looks-trans :
      (s t u : P.Seed) → Looks P view ns s t → Looks P view ns t u → Looks P view ns s u
  Looks-trans s t u h h' = record {
    cluster = h'.cluster ∙ h.cluster;
    secrets = λ ref. h'.secrets ref ∙ h.secrets ref;
    resources = λ name. h'.resources name ∙ h.resources name;
  }

  pub Looks-sym : (s t : P.Seed) → Looks P view ns s t → Looks P view ns t s
  Looks-sym s t h = record {
    cluster = sym h.cluster;
    secrets = λ ref. sym (h.secrets ref);
    resources = λ name. sym (h.resources name);
  }

-- Two runs return the same, and leave states that look the same in the namespace.
pub record Agrees (P : Platform) (view : View P) (ns : Str) {E : Type 0} (a b : Option E × P.Seed)
    : Type 0 where
  pub returned : b.0 ≡ a.0
  pub left : Looks P view ns a.1 b.1

pub Agrees-eq :
    {P : Platform} {view : View P} {ns : Str} {E : Type 0} {a b a' b' : Option E × P.Seed}
    → a ≡ a'
    → b ≡ b'
    → Agrees P view ns a' b'
    → Agrees P view ns a b
Agrees-eq e e' h = rw (e, e') h

-- What a call for a managed resource of a namespace does there is up to what the namespace looks like.
pub record Own (P : Platform) (view : View P) (ns : Str) : Type 0 where
  pub create_agrees :
      (name origin : Str) (keep : Bool) (b : P.Bundle) (s t : P.Seed)
      → Looks P view ns s t
      → Agrees P view ns
          (P.create_for_shoot ns name origin keep b s)
          (P.create_for_shoot ns name origin keep b t)
  pub delete_agrees :
      (name : Str) (s t : P.Seed)
      → Looks P view ns s t
      → Agrees P view ns (P.delete_for_shoot ns name s) (P.delete_for_shoot ns name t)

module _ (P : Platform) (M : Managed P) (H : Steady P) (L : Local M) (ns : Str) where
  create_for_shoot-Agrees :
      (name origin : Str) (keep : Bool) (b : P.Bundle) (s t : P.Seed)
      → Looks P M.managed ns s t
      → Agrees P M.managed ns
          (P.create_for_shoot ns name origin keep b s)
          (P.create_for_shoot ns name origin keep b t)
  create_for_shoot-Agrees name origin keep b s t h = record {
    returned = L.create_returns ns name origin keep b s t h;
    left = record {
      cluster =
          H.cluster_create ns name origin keep b t ns
          ∙ (h.cluster ∙ sym (H.cluster_create ns name origin keep b s ns));
      secrets = λ ref.
          H.secret_create ns name origin keep b t ns ref
          ∙ (h.secrets ref ∙ sym (H.secret_create ns name origin keep b s ns ref));
      resources = λ n. elim (str_dec n name) [
        | yes e ↦ rw e (L.create_leaves ns name origin keep b s t h)
        | no ne ↦
            M.create_other ns name origin keep b t ns n (inr ne)
            ∙ (h.resources n ∙ sym (M.create_other ns name origin keep b s ns n (inr ne)))
      ];
    };
  }

  delete_for_shoot-Agrees :
      (name : Str) (s t : P.Seed)
      → Looks P M.managed ns s t
      → Agrees P M.managed ns (P.delete_for_shoot ns name s) (P.delete_for_shoot ns name t)
  delete_for_shoot-Agrees name s t h = record {
    returned = L.delete_returns ns name s t h;
    left = record {
      cluster = H.cluster_delete ns name t ns ∙ (h.cluster ∙ sym (H.cluster_delete ns name s ns));
      secrets = λ ref.
          H.secret_delete ns name t ns ref
          ∙ (h.secrets ref ∙ sym (H.secret_delete ns name s ns ref));
      resources = λ n. elim (str_dec n name) [
        | yes e ↦ rw e (L.delete_leaves ns name s t h)
        | no ne ↦
            M.delete_other ns name t ns n (inr ne)
            ∙ (h.resources n ∙ sym (M.delete_other ns name s ns n (inr ne)))
      ];
    };
  }

  pub own : Own P M.managed ns
  own = record { create_agrees = create_for_shoot-Agrees; delete_agrees = delete_for_shoot-Agrees }
