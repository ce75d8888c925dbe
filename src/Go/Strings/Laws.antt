-- ===== src/Go/Strings/Laws.antt =====
-- Words and the space between them.
use mathlib.Core.List.{append-nil, append_assoc}
use mathlib.Core.Path.{subst, ap, ◌∙◌}
use gardener_extension_shoot.Base.{
  ℕ, ◌≡◌, refl, Bool, true, false, ◌≢◌, [], ◌∷◌, ◌++◌, arith, Str, All, All-append, eqb,
}
use gardener_extension_shoot.Go.Strings.{
  is_space, with_word, split_fields, fields, trim_right, trim_newlines,
}

abbrev pub NoSpace : Str → Type 0
NoSpace = All (λ c. is_space c ≡ false)

-- A word, as a checksum or a path with no space is.
pub record IsWord (w : Str) : Type 0 where
  pub no_space : NoSpace w
  pub not_empty : w ≢ []

split_fields-word :
    (w s : Str) → NoSpace w → split_fields (w ++ s) ≡ (w ++ (split_fields s).0, (split_fields s).1)
unfolding split_fields
split_fields-word [] s h = refl
split_fields-word (c ∷ w) s h = ground (arith, split_fields-word w s h.1)

pub fields-word : (w : Str) → IsWord w → fields w ≡ w ∷ []
unfolding fields
fields-word [] h = absurd (h.not_empty refl)
fields-word (c ∷ w) h =
    let e : split_fields (c ∷ w) ≡ (c ∷ w, []) =
      subst (λ v. split_fields v ≡ (v, [])) (append-nil (c ∷ w))
        (split_fields-word (c ∷ w) [] h.no_space) in
    ap (λ r. with_word r.0 r.1) e

pub fields-space : (c : ℕ) (s : Str) → is_space c ≡ true → fields (c ∷ s) ≡ fields s
unfolding fields
fields-space c s h = ground arith

pub fields-word_space :
    (w : Str) (c : ℕ) (s : Str) → IsWord w → is_space c ≡ true → fields (w ++ c ∷ s) ≡ w ∷ fields s
unfolding fields
fields-word_space [] c s h sp = absurd (h.not_empty refl)
fields-word_space (b ∷ w) c s h sp =
    let e : split_fields (b ∷ w ++ c ∷ s) ≡ (b ∷ w, fields s) =
      split_fields-word (b ∷ w) (c ∷ s) h.no_space ∙ ground (arith, append-nil (b ∷ w)) in
    ap (λ r. with_word r.0 r.1) e

append-ne-nil : (s w : Str) → w ≢ [] → s ++ w ≢ []
append-ne-nil [] w ne h = ne h
append-ne-nil (c ∷ s) w ne h = cc

module _ (p : ℕ → Bool) where
  trim_right-drop : (s : Str) (c : ℕ) → p c ≡ true → trim_right p (s ++ (c ∷ [])) ≡ trim_right p s
  unfolding trim_right
  trim_right-drop [] c h = ground arith
  trim_right-drop (b ∷ s) c h = rw (trim_right-drop s c h)

  trim_right-keep : (s w : Str) → All (λ c. p c ≡ false) w → w ≢ [] → trim_right p (s ++ w) ≡ s ++ w
  unfolding trim_right
  trim_right-keep [] [] h ne = absurd (ne refl)
  trim_right-keep [] (c ∷ []) h ne = ground (arith, h.0)
  trim_right-keep [] (c ∷ d ∷ w) h ne = rw (trim_right-keep [] (d ∷ w) h.1 (λ e. cc))
  trim_right-keep (b ∷ s) w h ne = ground (arith, trim_right-keep s w h ne, append-ne-nil s w ne)

-- A line of two words: a checksum and a path, with two spaces between, as sha256sum prints it.
abbrev pub sum_line : Str → Str → Str
sum_line sum path = sum ++ 0x20 ∷ 0x20 ∷ path

pub fields-sum_line :
    (sum path : Str) → IsWord sum → IsWord path → fields (sum_line sum path) ≡ sum ∷ path ∷ []
unfolding is_space
fields-sum_line sum path hs hp =
    fields-word_space sum 0x20 (0x20 ∷ path) hs refl
    ∙ ap (λ r. sum ∷ r) (fields-space 0x20 path refl ∙ fields-word path hp)

abbrev pub newline : ℕ → Bool
newline c = eqb c b'\n'

not_newline : (c : ℕ) → is_space c ≡ false → newline c ≡ false
unfolding is_space
not_newline c h = ground arith

All-not_newline : (w : Str) → NoSpace w → All (λ c. newline c ≡ false) w
All-not_newline [] h = tt
All-not_newline (c ∷ w) h = (not_newline c h.0, All-not_newline w h.1)

pub trim_newlines-sum_line :
    (sum path : Str)
    → IsWord sum
    → IsWord path
    → trim_newlines (sum_line sum path ++ (b'\n' ∷ [])) ≡ sum_line sum path
unfolding trim_newlines
trim_newlines-sum_line [] path hs hp = absurd (hs.not_empty refl)
trim_newlines-sum_line (c ∷ sum) path hs hp =
    let line : Str = sum_line (c ∷ sum) path in
    let kept : trim_right newline line ≡ line =
      subst (λ v. trim_right newline v ≡ v) (append_assoc (c ∷ sum) (0x20 ∷ 0x20 ∷ []) path)
        (trim_right-keep newline ((c ∷ sum) ++ 0x20 ∷ 0x20 ∷ []) path
          (All-not_newline path hp.no_space) hp.not_empty) in
    rw (not_newline c (hs.no_space.0)) (trim_right-drop newline line b'\n' refl ∙ kept)

-- A line of words holds no newline.
pub All-not_newline-sum_line :
    (sum path : Str) → IsWord sum → IsWord path → All (λ c. newline c ≡ false) (sum_line sum path)
All-not_newline-sum_line sum path hs hp =
    All-append (λ c. newline c ≡ false) sum (0x20 ∷ 0x20 ∷ path) (All-not_newline sum hs.no_space)
      (refl, (refl, All-not_newline path hp.no_space))
