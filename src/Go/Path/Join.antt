-- ===== src/Go/Path/Join.antt =====
-- Files in one directory have different paths.
use gardener_extension_shoot.Base.{
  ◌≡◌, sym, ap, ◌∙◌, List, [], ◌∷◌, ◌++◌, Str, All, All-map, All-append,
}
use gardener_extension_shoot.Go.Path.{join, join_slash, segments}
use gardener_extension_shoot.Go.Path.Laws.{IsPlain, NoSlash, segments-join_slash, join-join_slash}

append_one_cancel : (ss : List Str) (t u : Str) → ss ++ (t ∷ []) ≡ ss ++ (u ∷ []) → t ≡ u
append_one_cancel [] t u h = cc
append_one_cancel (s ∷ ss) t u h = append_one_cancel ss t u (cc)

module _ (s : Str) (ss : List Str) (ps : IsPlain s) (h : All IsPlain ss) where
  segments-join :
      (t : Str) → IsPlain t → segments (join (join_slash (s ∷ ss)) t) ≡ s ∷ ss ++ (t ∷ [])
  segments-join t pt =
      ap segments (join-join_slash s ss t ps h pt)
      ∙ segments-join_slash s (ss ++ (t ∷ [])) ps.no_slash (
          All-append NoSlash ss (t ∷ []) (All-map _ _ ss (λ u pu. pu.no_slash) h) (pt.no_slash, tt))

  pub join_injective :
      (t u : Str)
      → IsPlain t
      → IsPlain u
      → join (join_slash (s ∷ ss)) t ≡ join (join_slash (s ∷ ss)) u
      → t ≡ u
  join_injective t u pt pu e =
      append_one_cancel (s ∷ ss) t u (sym (segments-join t pt) ∙ ap segments e ∙ segments-join u pu)
