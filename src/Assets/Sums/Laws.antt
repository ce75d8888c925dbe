-- ===== src/Assets/Sums/Laws.antt =====
-- Printed checksums are read back, and what the parser refuses or passes over.
use mathlib.Core.List.{append_assoc}
use mathlib.Core.Logic.{if_neg}
use gardener_extension_shoot.Base.{
  ◌≡◌, refl, ap, ◌∙◌, sym, ◌≢◌, ◌↔◌, ◌⊎◌, inl, inr, false, none, List, [], ◌∷◌, ◌++◌, ok, IsOk,
  >>=-IsOk, >>=-ok, IsOk-ok, arith, Str, str_dec, All,
}
use gardener_extension_shoot.Base.Dict.{Dict, insert, copy}
use gardener_extension_shoot.Go.Strings.{fields, trim_newlines}
use gardener_extension_shoot.Go.Strings.Laws.{
  IsWord, sum_line, fields-sum_line, newline, trim_newlines-sum_line, All-not_newline-sum_line,
}
use gardener_extension_shoot.Assets.Sums.{
  read_strings, add_entry, add_line, add_lines, sums_from_reader,
}

-- The lines that sha256sum prints for paths and their checksums.
pub print_sums : List (Str × Str) → Str
print_sums [] = []
print_sums ((path, sum) ∷ entries) = (sum_line sum path ++ (b'\n' ∷ [])) ++ print_sums entries

abbrev pub AreWords : List (Str × Str) → Type 0
AreWords = All (λ (path, sum). IsWord path × IsWord sum)

abbrev NoNewline : Str → Type 0
NoNewline = All (λ c. newline c ≡ false)

read_strings-line :
    (line rest : Str)
    → NoNewline line
    → read_strings ((line ++ (b'\n' ∷ [])) ++ rest) ≡ (line ++ (b'\n' ∷ [])) ∷ read_strings rest
unfolding read_strings
read_strings-line [] rest h = refl
read_strings-line (c ∷ line) rest h = rw (read_strings-line line rest h.1) (ground (arith, h.0))

read_strings-unterminated : (tail : Str) → NoNewline tail → read_strings tail ≡ []
unfolding read_strings
read_strings-unterminated [] h = refl
read_strings-unterminated (c ∷ tail) h = ground (arith, h.0, read_strings-unterminated tail h.1)

sum_line-ne-nil : (sum path : Str) → IsWord sum → sum_line sum path ≢ []
sum_line-ne-nil [] path h e = h.not_empty refl
sum_line-ne-nil (c ∷ sum) path h e = cc

add_line_lem :
    (text line : Str) (sums : Dict Str)
    → trim_newlines text ≡ line
    → line ≢ []
    → add_line text sums ≡ add_entry line (fields line) sums
unfolding add_line
add_line_lem text line sums h ne = rw h (ground (arith, ne))

add_line-sum_line :
    (sum path : Str) (sums : Dict Str)
    → IsWord path
    → IsWord sum
    → add_line (sum_line sum path ++ (b'\n' ∷ [])) sums ≡ ok (insert path sum sums)
add_line-sum_line sum path sums hp hs =
    add_line_lem _ (sum_line sum path) sums (trim_newlines-sum_line sum path hs hp)
      (sum_line-ne-nil sum path hs)
    ∙ ap (λ fs. add_entry (sum_line sum path) fs sums) (fields-sum_line sum path hs hp)

add_lines-print_sums :
    (entries : List (Str × Str)) (sums : Dict Str)
    → AreWords entries
    → add_lines (read_strings (print_sums entries)) sums ≡ ok (copy sums entries)
unfolding add_lines print_sums copy
add_lines-print_sums [] sums h =
    ap (λ texts. add_lines texts sums) (read_strings-unterminated [] tt)
add_lines-print_sums ((path, sum) ∷ entries) sums ((hp, hs), h) =
    rw
      (
        read_strings-line (sum_line sum path) (print_sums entries)
            (All-not_newline-sum_line sum path hs hp),
        add_line-sum_line sum path sums hp hs,
      )
      (add_lines-print_sums entries (insert path sum sums) h)

-- Checksums printed the way sha256sum prints them, for paths and sums with no white space, are read
-- back as the map that has each path at its last sum; the parser does not fail.
pub sums_from_reader-print_sums :
    (entries : List (Str × Str))
    → AreWords entries
    → sums_from_reader (record { content = print_sums entries; failure = none })
      ≡ ok (copy [] entries)
unfolding sums_from_reader
sums_from_reader-print_sums entries h = rw (add_lines-print_sums entries [] h)

-- What the loop does with one text that it has read.
abbrev pub IsBlankOrPair : Str → Type 0
IsBlankOrPair text =
    (trim_newlines text ≡ [])
    ⊎ ((sum : Str) × (path : Str) × (fields (trim_newlines text) ≡ sum ∷ path ∷ []))

add_entry-IsOk :
    (line : Str) (fs : List Str) (sums : Dict Str)
    → IsOk (add_entry line fs sums)
    → (sum : Str) × (path : Str) × (fs ≡ sum ∷ path ∷ [])
add_entry-IsOk line (sum ∷ path ∷ []) sums h = (sum, path, refl)
add_entry-IsOk line [] sums h = absurd h
add_entry-IsOk line (_ ∷ []) sums h = absurd h
add_entry-IsOk line (_ ∷ _ ∷ _ ∷ _) sums h = absurd h

add_line_sound : (text : Str) (sums : Dict Str) → IsOk (add_line text sums) → IsBlankOrPair text
unfolding add_line
add_line_sound text sums h = elim (str_dec (trim_newlines text) []) [
  | yes blank ↦ inl blank
  | no more ↦ inr (add_entry-IsOk _ _ sums (rw (if_neg _ more) at h))
]

add_line_complete :
    (text : Str) (sums : Dict Str)
    → IsBlankOrPair text
    → (sums' : Dict Str) × (add_line text sums ≡ ok sums')
unfolding add_line
add_line_complete text sums (inl blank) = (sums, ground arith)
add_line_complete text sums (inr (sum, path, pair)) = elim (str_dec (trim_newlines text) []) [
  | yes blank ↦ (sums, ground arith)
  | no more ↦ (insert path sum sums, ground arith)
]

add_lines_sound :
    (texts : List Str) (sums : Dict Str) → IsOk (add_lines texts sums) → All IsBlankOrPair texts
unfolding add_lines
add_lines_sound [] sums h = tt
add_lines_sound (text ∷ texts) sums h =
    let (sums', first, rest) = >>=-IsOk (add_line text sums) (add_lines texts) h in
    (add_line_sound text sums (IsOk-ok sums' first), add_lines_sound texts sums' rest)

add_lines_complete :
    (texts : List Str) (sums : Dict Str) → All IsBlankOrPair texts → IsOk (add_lines texts sums)
unfolding add_lines
add_lines_complete [] sums h = tt
add_lines_complete (text ∷ texts) sums (first, h) =
    let (sums', e) = add_line_complete text sums first in rw e (add_lines_complete texts sums' h)

-- On a reader that ends without an error, the parser succeeds exactly if each line that a newline
-- ends is empty or consists of two words.
pub sums_from_reader-IsOk_iff :
    (content : Str)
    → IsOk (sums_from_reader (record { content = content; failure = none }))
      ↔ All IsBlankOrPair (read_strings content)
unfolding sums_from_reader
sums_from_reader-IsOk_iff content =
    rw (>>=-ok (add_lines (read_strings content) []))
      (add_lines_sound (read_strings content) [], add_lines_complete (read_strings content) [])

read_strings-print_sums :
    (entries : List (Str × Str)) (tail : Str)
    → AreWords entries
    → NoNewline tail
    → read_strings (print_sums entries ++ tail) ≡ read_strings (print_sums entries)
unfolding print_sums
read_strings-print_sums [] tail h un =
    read_strings-unterminated tail un ∙ sym (read_strings-unterminated [] tt)
read_strings-print_sums ((path, sum) ∷ entries) tail ((hp, hs), h) un =
    let line : Str = sum_line sum path in
    let plain = All-not_newline-sum_line sum path hs hp in
    ap read_strings (append_assoc (line ++ (b'\n' ∷ [])) (print_sums entries) tail)
    ∙ read_strings-line line (print_sums entries ++ tail) plain
    ∙ ap (λ r. (line ++ (b'\n' ∷ [])) ∷ r) (read_strings-print_sums entries tail h un)
    ∙ sym (read_strings-line line (print_sums entries) plain)

-- What stands behind the last newline is not read: an entry whose line does not end is lost.
pub sums_from_reader-unterminated :
    (entries : List (Str × Str)) (tail : Str)
    → AreWords entries
    → All (λ c. newline c ≡ false) tail
    → sums_from_reader (record { content = print_sums entries ++ tail; failure = none })
      ≡ ok (copy [] entries)
unfolding sums_from_reader
sums_from_reader-unterminated entries tail h unterminated =
    rw (read_strings-print_sums entries tail h unterminated, add_lines-print_sums entries [] h)
