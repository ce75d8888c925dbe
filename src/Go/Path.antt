-- ===== src/Go/Path.antt =====
-- `Base`, `Dir`, `Clean` and `Join` of Go's `path/filepath`, on the segments between slashes.
pub mod Laws
pub mod Join
use gardener_extension_shoot.Base.{
  ℕ, Bool, true, false, ◌&&◌, List, [], ◌∷◌, ◌++◌, eqb, if◌then◌else◌, Str, codes, ◌==◌,
}

abbrev slash : ℕ
slash = b'/'

-- The first segment of a path and the rest of its segments.
unfoldable pub split_slash : Str → Str × List Str
split_slash [] = ([], [])
split_slash (c ∷ p) =
    let (s, ss) = split_slash p in if eqb c slash then ([], s ∷ ss) else (c ∷ s, ss)

unfoldable pub segments : Str → List Str
unfolding split_slash
segments p = (split_slash p).0 ∷ (split_slash p).1

-- Segments with a slash between each two.
unfoldable pub join_slash : List Str → Str
join_slash [] = []
join_slash (s ∷ []) = s
join_slash (s ∷ t ∷ ss) = s ++ slash ∷ join_slash (t ∷ ss)

unfoldable pub is_rooted : Str → Bool
is_rooted [] = false
is_rooted (c ∷ _) = eqb c slash

-- The segment `..`, onto the segments already taken, the last first.
unfoldable pub go_up : Bool → List Str → List Str
go_up rooted [] = if rooted then [] else codes ".." ∷ []
go_up rooted (s ∷ ss) = if s == codes ".." then codes ".." ∷ s ∷ ss else ss

-- The loop of `Clean` over the segments; those already taken stand last first.
unfoldable pub clean_onto : Bool → List Str → List Str → List Str
unfolding go_up
clean_onto rooted taken [] = taken
clean_onto rooted taken (s ∷ ss) =
    clean_onto rooted
      (if s == []
        then taken
        else if s == codes "."
        then taken
        else if s == codes ".."
        then go_up rooted taken
        else s ∷ taken)
      ss

unfoldable pub rev_onto : List Str → List Str → List Str
rev_onto [] acc = acc
rev_onto (s ∷ ss) acc = rev_onto ss (s ∷ acc)

-- `filepath.Clean`
unfoldable pub clean : Str → Str
unfolding segments join_slash is_rooted clean_onto rev_onto
clean p =
    let out = join_slash (rev_onto (clean_onto (is_rooted p) [] (segments p)) []) in
    if is_rooted p then slash ∷ out else if out == [] then codes "." else out

-- The last segment that is not empty.
unfoldable pub last_segment : Str → List Str → Str
last_segment found [] = found
last_segment found (s ∷ ss) = last_segment (if s == [] then found else s) ss

-- `filepath.Base`
unfoldable pub base : Str → Str
unfolding segments last_segment
base p = if p == [] then codes "." else last_segment (codes "/") (segments p)

-- All segments but the last.
unfoldable pub but_last : List Str → List Str
but_last [] = []
but_last (s ∷ []) = []
but_last (s ∷ t ∷ ss) = s ∷ but_last (t ∷ ss)

-- `filepath.Dir`: what stands before the last slash, with that slash, cleaned.
unfoldable pub dir : Str → Str
unfolding segments join_slash but_last clean
dir p = clean (join_slash (but_last (segments p) ++ ([] ∷ [])))

-- `filepath.Join` of two elements.
unfoldable pub join : Str → Str → Str
unfolding clean
join a b =
    if a == []
    then (if b == [] then [] else clean b)
    else if b == []
    then clean a
    else clean (a ++ slash ∷ b)

-- `filepath.Join`, which leaves out the empty elements in front.
unfoldable pub join_all : List Str → Str
unfolding clean join_slash
join_all [] = []
join_all (e ∷ es) = if e == [] then join_all es else clean (join_slash (e ∷ es))
