-- ===== src/Go/Strings.antt =====
-- The functions of Go's `strings`, `unicode`, `strconv` and `fmt` that the code calls.
pub mod Laws
pub mod Digits
use gardener_extension_shoot.Base.{
  ℕ, zero, suc, ◌+◌, ◌-◌, ◌/◌, ◌%◌, Bool, true, false, ◌&&◌, ◌||◌, List, [], ◌∷◌, ◌++◌, leb, eqb,
  if◌then◌else◌, Str,
}

-- `unicode.IsSpace`
unfoldable pub is_space : ℕ → Bool
is_space c =
    (leb 9 c && leb c 13)
    || eqb c 0x20
    || eqb c 0x85
    || eqb c 0xa0
    || eqb c 0x1680
    || (leb 0x2000 c && leb c 0x200a)
    || eqb c 0x2028
    || eqb c 0x2029
    || eqb c 0x202f
    || eqb c 0x205f
    || eqb c 0x3000

-- A word that is not empty goes in front of the words that follow it.
abbrev pub with_word : Str → List Str → List Str
with_word [] words = words
with_word (c ∷ w) words = (c ∷ w) ∷ words

-- The word at the front of a text, which may be empty, and the words after it.
unfoldable pub split_fields : Str → Str × List Str
unfolding is_space
split_fields [] = ([], [])
split_fields (c ∷ s) =
    let (word, words) = split_fields s in
    if is_space c then ([], with_word word words) else (c ∷ word, words)

-- `strings.Fields`
unfoldable pub fields : Str → List Str
unfolding split_fields
fields s = with_word (split_fields s).0 (split_fields s).1

unfoldable pub trim_left : (ℕ → Bool) → Str → Str
trim_left p [] = []
trim_left p (c ∷ s) = if p c then trim_left p s else c ∷ s

unfoldable pub trim_right : (ℕ → Bool) → Str → Str
trim_right p [] = []
trim_right p (c ∷ s) = elim (trim_right p s) [ [] ↦ if p c then [] else c ∷ [] | d ∷ t ↦ c ∷ d ∷ t ]

-- `strings.Trim(s, "\n")`
unfoldable pub trim_newlines : Str → Str
unfolding trim_left trim_right
trim_newlines s = trim_right (λ c. eqb c b'\n') (trim_left (λ c. eqb c b'\n') s)

-- `strings.TrimSpace`
unfoldable pub trim_space : Str → Str
unfolding trim_left trim_right is_space
trim_space s = trim_right is_space (trim_left is_space s)

unfoldable pub to_lower : ℕ → ℕ
to_lower c = if leb b'A' c && leb c b'Z' then c + 32 else c

-- `strings.EqualFold`, for a second text of hexadecimal digits: none of these has a case variant
-- outside ASCII.
unfoldable pub equal_fold : Str → Str → Bool
unfolding to_lower
equal_fold [] [] = true
equal_fold (c ∷ s) (d ∷ t) = eqb (to_lower c) (to_lower d) && equal_fold s t
equal_fold _ _ = false

unfoldable pub hex_digit : ℕ → ℕ
hex_digit n = if leb n 9 then b'0' + n else b'a' + n - 10

-- `fmt.Sprintf("%x", bytes)`
unfoldable pub hex : List ℕ → Str
unfolding hex_digit
hex [] = []
hex (b ∷ bs) = hex_digit (b / 16) ∷ hex_digit (b % 16) ∷ hex bs

-- The decimal digits of a number, in front of those given.
unfoldable pub digits_onto : ℕ → ℕ → Str → Str
digits_onto zero n ds = ds
digits_onto (suc f) n ds =
    let rest = digits_onto f (n / 10) ((b'0' + n % 10) ∷ ds) in
    if leb n 9 then (b'0' + n) ∷ ds else rest

-- `strconv.Itoa`, for the indices of a slice.
unfoldable pub itoa : ℕ → Str
unfolding digits_onto
itoa n = digits_onto (suc n) n []
