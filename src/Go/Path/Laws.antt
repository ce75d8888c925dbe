-- ===== src/Go/Path/Laws.antt =====
-- Paths that are written by plain segments: `clean` keeps them, and `base`, `dir` and `join` take
-- them apart and build them.
use mathlib.Core.List.{append-nil, append_assoc}
use gardener_extension_shoot.Base.{
  ◌≡◌, refl, ap, ◌∙◌, ◌≢◌, false, codes, Str, List, [], ◌∷◌, ◌++◌, arith, All, All-append, ◌==◌,
  if◌then◌else◌,
}
use gardener_extension_shoot.Go.Path.{
  slash, base, dir, join, clean, split_slash, segments, join_slash, is_rooted, clean_onto, rev_onto,
  last_segment, but_last,
}

abbrev pub NoSlash : Str → Type 0
NoSlash = All (λ c. c ≢ slash)

-- A segment that names an entry of a directory.
pub record IsPlain (s : Str) : Type 0 where
  pub no_slash : NoSlash s
  pub not_empty : s ≢ []
  pub not_dot : s ≢ codes "."
  pub not_dots : s ≢ codes ".."

split_slash-NoSlash : (s : Str) → NoSlash s → split_slash s ≡ (s, [])
unfolding split_slash
split_slash-NoSlash [] h = refl
split_slash-NoSlash (c ∷ s) h = ground (arith, split_slash-NoSlash s h.1)

split_slash-append : (s p : Str) → NoSlash s → split_slash (s ++ slash ∷ p) ≡ (s, segments p)
unfolding split_slash segments
split_slash-append [] p h = refl
split_slash-append (c ∷ s) p h = ground (arith, split_slash-append s p h.1)

pub segments-join_slash :
    (s : Str) (ss : List Str) → NoSlash s → All NoSlash ss → segments (join_slash (s ∷ ss)) ≡ s ∷ ss
unfolding segments join_slash
segments-join_slash s [] h hs = rw (split_slash-NoSlash s h)
segments-join_slash s (t ∷ ss) h (ht, hs) =
    rw (split_slash-append s (join_slash (t ∷ ss)) h)
      (ap (λ r. s ∷ r) (segments-join_slash t ss ht hs))

clean_onto-plain :
    (taken ss : List Str) → All IsPlain ss → clean_onto false taken ss ≡ rev_onto ss taken
unfolding clean_onto rev_onto
clean_onto-plain taken [] h = refl
clean_onto-plain taken (s ∷ ss) (p, h) =
    ground (arith, clean_onto-plain (s ∷ taken) ss h, p.not_empty, p.not_dot, p.not_dots)

rev_onto-rev_onto : (xs ys zs : List Str) → rev_onto (rev_onto xs ys) zs ≡ rev_onto ys (xs ++ zs)
unfolding rev_onto
rev_onto-rev_onto [] ys zs = refl
rev_onto-rev_onto (x ∷ xs) ys zs = rev_onto-rev_onto xs (x ∷ ys) zs

is_rooted-NoSlash : (s t : Str) → NoSlash s → s ≢ [] → is_rooted (s ++ t) ≡ false
unfolding is_rooted
is_rooted-NoSlash [] t h ne = absurd (ne refl)
is_rooted-NoSlash (c ∷ s) t h ne = ground (arith, h.0)

is_rooted-join_slash :
    (s : Str) (ss : List Str) → IsPlain s → is_rooted (join_slash (s ∷ ss)) ≡ false
unfolding join_slash
is_rooted-join_slash s [] p = rw append-nil at (is_rooted-NoSlash s [] p.no_slash p.not_empty)
is_rooted-join_slash s (t ∷ ss) p = is_rooted-NoSlash s _ p.no_slash p.not_empty

join_slash-ne-nil : (s : Str) (ss : List Str) → IsPlain s → join_slash (s ∷ ss) ≢ []
unfolding is_rooted join_slash
join_slash-ne-nil s [] p h = p.not_empty h
join_slash-ne-nil [] (t ∷ ss) p h = p.not_empty refl
join_slash-ne-nil (c ∷ s) (t ∷ ss) p h = cc

All-NoSlash : (ss : List Str) → All IsPlain ss → All NoSlash ss
All-NoSlash [] h = tt
All-NoSlash (s ∷ ss) (p, h) = (p.no_slash, All-NoSlash ss h)

-- A path of plain segments is clean.
pub clean-join_slash :
    (s : Str) (ss : List Str)
    → IsPlain s
    → All IsPlain ss
    → clean (join_slash (s ∷ ss)) ≡ join_slash (s ∷ ss)
unfolding clean rev_onto
clean-join_slash s ss p h =
    let taken = clean_onto-plain [] (s ∷ ss) (p, h) in
    let back = rev_onto-rev_onto (s ∷ ss) [] [] ∙ append-nil (s ∷ ss) in
    rw
      (
        is_rooted-join_slash s ss p,
        segments-join_slash s ss p.no_slash (All-NoSlash ss h),
        taken,
        back,
      )
      (ground (arith, join_slash-ne-nil s ss p))

join_slash-append :
    (s : Str) (ss : List Str) (t : Str)
    → join_slash (s ∷ ss) ++ slash ∷ t ≡ join_slash (s ∷ ss ++ (t ∷ []))
unfolding join_slash
join_slash-append s [] t = refl
join_slash-append s (u ∷ ss) t =
    append_assoc s (slash ∷ join_slash (u ∷ ss)) (slash ∷ t)
    ∙ ap (λ r. s ++ slash ∷ r) (join_slash-append u ss t)

All-IsPlain-append :
    (ss : List Str) (t : Str) → All IsPlain ss → IsPlain t → All IsPlain (ss ++ (t ∷ []))
All-IsPlain-append [] t h p = (p, tt)
All-IsPlain-append (s ∷ ss) t (q, h) p = (q, All-IsPlain-append ss t h p)

-- Joining a file name to a path of plain segments puts one slash between them.
pub join-join_slash :
    (s : Str) (ss : List Str) (t : Str)
    → IsPlain s
    → All IsPlain ss
    → IsPlain t
    → join (join_slash (s ∷ ss)) t ≡ join_slash (s ∷ ss ++ (t ∷ []))
unfolding join
join-join_slash s ss t ps h pt =
    let whole = clean-join_slash s (ss ++ (t ∷ [])) ps (All-IsPlain-append ss t h pt) in
    let glued = join_slash-append s ss t in
    ground (arith, join_slash-ne-nil s ss ps, pt.not_empty, whole, glued)

clean_lem :
    (p : Str) (ss : List Str)
    → is_rooted p ≡ false
    → segments p ≡ ss
    → let out = join_slash (rev_onto (clean_onto false [] ss) []) in
      clean p ≡ (if out == [] then codes "." else out)
unfolding clean
clean_lem p ss unrooted split = rw (unrooted, ap (clean_onto false []) split)

base_lem : (p : Str) → p ≢ [] → base p ≡ last_segment (codes "/") (segments p)
unfolding base
base_lem p h = ground arith

dir_lem : (p : Str) → dir p ≡ clean (join_slash (but_last (segments p) ++ ([] ∷ [])))
unfolding dir
dir_lem p = refl

last_segment-last :
    (found s : Str) (ss : List Str) → s ≢ [] → last_segment found (ss ++ (s ∷ [])) ≡ s
unfolding last_segment
last_segment-last found s [] h = ground arith
last_segment-last found s (t ∷ ss) h = last_segment-last (if t == [] then found else t) s ss h

-- The empty segment behind a last slash is skipped.
clean_onto-trailing :
    (taken ss : List Str)
    → All IsPlain ss
    → clean_onto false taken (ss ++ ([] ∷ [])) ≡ rev_onto ss taken
unfolding clean_onto rev_onto
clean_onto-trailing taken [] h = ground arith
clean_onto-trailing taken (s ∷ ss) (p, h) =
    ground (arith, clean_onto-trailing (s ∷ taken) ss h, p.not_empty, p.not_dot, p.not_dots)

-- A slash behind a path of plain segments is dropped.
clean-trailing :
    (s : Str) (ss : List Str)
    → IsPlain s
    → All IsPlain ss
    → clean (join_slash (s ∷ ss ++ ([] ∷ []))) ≡ join_slash (s ∷ ss)
unfolding rev_onto
clean-trailing s ss p h =
    let taken = clean_onto-trailing [] (s ∷ ss) (p, h) in
    let back = rev_onto-rev_onto (s ∷ ss) [] [] ∙ append-nil (s ∷ ss) in
    let out = taken_out taken back in
    clean_lem (join_slash (s ∷ ss ++ ([] ∷ []))) (s ∷ ss ++ ([] ∷ []))
      (is_rooted-join_slash s (ss ++ ([] ∷ [])) p)
      (segments-join_slash s (ss ++ ([] ∷ [])) p.no_slash
        (All-append NoSlash ss ([] ∷ []) (All-NoSlash ss h) (tt, tt)))
    ∙ rw out (ground (arith, join_slash-ne-nil s ss p))
  where
    taken_out :
        clean_onto false [] (s ∷ ss ++ ([] ∷ [])) ≡ rev_onto (s ∷ ss) []
        → rev_onto (rev_onto (s ∷ ss) []) [] ≡ s ∷ ss
        → join_slash (rev_onto (clean_onto false [] (s ∷ ss ++ ([] ∷ []))) []) ≡ join_slash (s ∷ ss)
    taken_out t b = ap (λ r. join_slash (rev_onto r [])) t ∙ ap join_slash b

module _ (a b c : Str) (pa : IsPlain a) (pb : IsPlain b) (pc : IsPlain c) where
  abbrev path : Str
  path = join_slash (a ∷ b ∷ c ∷ [])

  segments-path : segments path ≡ a ∷ b ∷ c ∷ []
  segments-path = segments-join_slash a (b ∷ c ∷ []) pa.no_slash (pb.no_slash, (pc.no_slash, tt))

  -- The last segment of a path of three.
  pub base-path : base path ≡ c
  base-path =
      base_lem path (join_slash-ne-nil a (b ∷ c ∷ []) pa)
      ∙ ap (last_segment (codes "/")) segments-path
      ∙ last_segment-last (codes "/") c (a ∷ b ∷ []) pc.not_empty

  -- Its directory is the path of the first two.
  pub dir-path : dir path ≡ join_slash (a ∷ b ∷ [])
  unfolding but_last
  dir-path =
      dir_lem path
      ∙ ap (λ ss. clean (join_slash (but_last ss ++ ([] ∷ [])))) segments-path
      ∙ clean-trailing a (b ∷ []) pa (pb, tt)

-- The last segment of a path of two.
pub base-path_of_two : (a b : Str) → IsPlain a → IsPlain b → base (join_slash (a ∷ b ∷ [])) ≡ b
base-path_of_two a b pa pb =
    base_lem (join_slash (a ∷ b ∷ [])) (join_slash-ne-nil a (b ∷ []) pa)
    ∙ ap (last_segment (codes "/")) (segments-join_slash a (b ∷ []) pa.no_slash (pb.no_slash, tt))
    ∙ last_segment-last (codes "/") b (a ∷ []) pb.not_empty
