-- ===== src/Assets/Sums.antt =====
-- `SumsFromReader` of pkg/assets/assets.go.
pub mod Laws
use gardener_extension_shoot.Base.{
  Bool, true, false, Option, none, some, List, [], ◌∷◌, Result, ok, err, ◌>>=◌, eqb, if◌then◌else◌,
  Str, ◌==◌,
}
use gardener_extension_shoot.Base.Dict.{Dict, insert}
use gardener_extension_shoot.Go.Strings.{fields, trim_newlines}

-- What an `io.Reader` yields: a text, and then the end of the file or an error.
pub record Reader : Type 0 where
  pub content : Str
  pub failure : Option Str

pub data SumsError : Type 0 where
  invalid_entry : Str → SumsError
  read_failed : Str → SumsError

-- The texts that the successive calls of `ReadString('\n')` return with no error. What stands after
-- the last newline is returned with the error that ends the loop, and no text is made of it.
unfoldable pub read_strings : Str → List Str
read_strings [] = []
read_strings (c ∷ s) =
    let rest = read_strings s in
    if eqb c b'\n' then (c ∷ []) ∷ rest else elim rest [ [] ↦ [] | line ∷ ls ↦ (c ∷ line) ∷ ls ]

-- The tests on the fields of a line, and the entry of the map.
abbrev pub add_entry : Str → List Str → Dict Str → Result SumsError (Dict Str)
add_entry line (sum ∷ path ∷ []) sums = ok (insert path sum sums)
add_entry line [] sums = err (invalid_entry line)
add_entry line (_ ∷ []) sums = err (invalid_entry line)
add_entry line (_ ∷ _ ∷ _ ∷ _) sums = err (invalid_entry line)

-- The body of the loop on a text that was read.
unfoldable pub add_line : Str → Dict Str → Result SumsError (Dict Str)
add_line text sums =
    let line = trim_newlines text in
    if line == [] then ok sums else add_entry line (fields line) sums

unfoldable pub add_lines : List Str → Dict Str → Result SumsError (Dict Str)
add_lines [] sums = ok sums
add_lines (text ∷ texts) sums = add_line text sums >>= add_lines texts

-- `SumsFromReader`
unfoldable pub sums_from_reader : Reader → Result SumsError (Dict Str)
sums_from_reader r = add_lines (read_strings r.content) [] >>= λ sums. elim r.failure [
  | none ↦ ok sums
  | some e ↦ err (read_failed e)
]
