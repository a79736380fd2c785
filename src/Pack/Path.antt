-- ===== src/Pack/Path.antt =====
-- Paths: `strings.TrimSpace`, `strings.TrimRightFunc` and `strings.HasSuffix`, and `Split`, `Clean` and
-- `Join` of Go's package `path`, as src/gproc/mexec.go calls them.
use gproc.Common.{
  ℕ, Bool, true, false, ◌||◌, ◌&&◌, List, [], ◌∷◌, ◌++◌, ◌≡◌, refl, Str, codes, str_eq, split, join,
  reverse, leb, ◌==◌, if◌then◌else◌,
}

-- `unicode.IsSpace` of a byte that is a rune.
abbrev pub is_space : ℕ → Bool
is_space c = (leb 9 c && leb c 13) || (c == b' ')

-- The spaces of two bytes, U+0085 and U+00A0, and those of three, U+1680, U+2000 to U+200A, U+2028, U+2029,
-- U+202F, U+205F and U+3000.
abbrev pub is_space_2 : ℕ → ℕ → Bool
is_space_2 a b = (a == 194) && ((b == 133) || (b == 160))

abbrev pub is_space_3 : ℕ → ℕ → ℕ → Bool
is_space_3 a b c =
    ((a == 225) && ((b == 154) && (c == 128)))
    || ((a == 227) && ((b == 128) && (c == 128)))
    || ((a == 226)
        && (((b == 128) && ((leb 128 c && leb c 138) || ((c == 168) || ((c == 169) || (c == 175)))))
            || ((b == 129) && (c == 159))))

-- `strings.TrimSpace` from the left. The bytes behind the first one of a rune are 128 or more.
unfoldable pub trim_space_left : Str → Str
trim_space_left [] = []
trim_space_left (a ∷ []) = if is_space a then [] else a ∷ []
trim_space_left (a ∷ b ∷ []) =
    let rest = trim_space_left (b ∷ []) in
    if is_space a then rest else if is_space_2 a b then [] else a ∷ b ∷ []
trim_space_left (a ∷ b ∷ c ∷ s) =
    let rest_1 = trim_space_left (b ∷ c ∷ s) in
    let rest_2 = trim_space_left (c ∷ s) in
    let rest_3 = trim_space_left s in
    if is_space a
    then rest_1
    else if is_space_2 a b
    then rest_2
    else if is_space_3 a b c
    then rest_3
    else a ∷ b ∷ c ∷ s

-- And from the right, on the reversed string.
unfoldable pub trim_space_right : Str → Str
trim_space_right [] = []
trim_space_right (a ∷ []) = if is_space a then [] else a ∷ []
trim_space_right (b ∷ a ∷ []) =
    let rest = trim_space_right (a ∷ []) in
    if is_space b then rest else if is_space_2 a b then [] else b ∷ a ∷ []
trim_space_right (c ∷ b ∷ a ∷ s) =
    let rest_1 = trim_space_right (b ∷ a ∷ s) in
    let rest_2 = trim_space_right (a ∷ s) in
    let rest_3 = trim_space_right s in
    if is_space c
    then rest_1
    else if is_space_2 b c
    then rest_2
    else if is_space_3 a b c
    then rest_3
    else c ∷ b ∷ a ∷ s

abbrev pub is_null : ℕ → Bool
is_null c = c == 0

unfoldable pub trim_right_func : (ℕ → Bool) → Str → Str
trim_right_func p [] = []
trim_right_func p (c ∷ s) =
    let rest = trim_right_func p s in
    elim rest [ [] ↦ if p c then [] else c ∷ [] | d ∷ ds ↦ c ∷ d ∷ ds ]

-- The start of `VisitDir` and of `VisitFile`.
unfoldable pub trim_path : Str → Str
unfolding trim_space_left trim_space_right trim_right_func
trim_path s = trim_right_func is_null (reverse (trim_space_right (reverse (trim_space_left s))))

unfoldable pub has_suffix : Str → Str → Bool
has_suffix suffix [] = str_eq suffix []
has_suffix suffix (c ∷ s) = str_eq suffix (c ∷ s) || has_suffix suffix s

-- `path.Split`: up to the last slash, and behind it.
unfoldable pub split_path : Str → Str × Str
split_path [] = ([], [])
split_path (c ∷ s) =
    let (dir, file) = split_path s in
    elim dir [
      | [] ↦ if c == b'/' then (c ∷ [], file) else ([], c ∷ file)
      | d ∷ ds ↦ (c ∷ d ∷ ds, file)
    ]

-- The elements of a path, the last first: `..` takes the one before it away.
abbrev pub up : Bool → List Str → List Str
up rooted [] = if rooted then [] else codes ".." ∷ []
up rooted (e ∷ out) = if str_eq e (codes "..") then codes ".." ∷ e ∷ out else out

unfoldable pub clean_elements : Bool → List Str → List Str → List Str
clean_elements rooted [] out = out
clean_elements rooted (e ∷ elements) out = clean_elements rooted elements (
    if str_eq e [] || str_eq e (codes ".")
    then out
    else if str_eq e (codes "..")
    then up rooted out
    else e ∷ out)

abbrev pub is_rooted : Str → Bool
is_rooted [] = false
is_rooted (c ∷ s) = c == b'/'

abbrev pub or_dot : Str → Str
or_dot [] = codes "."
or_dot (c ∷ s) = c ∷ s

-- `path.Clean`
unfoldable pub clean : Str → Str
unfolding clean_elements
clean s =
    let out = join b'/' (reverse (clean_elements (is_rooted s) (split b'/' s) [])) in
    if is_rooted s then b'/' ∷ out else or_dot out

-- `path.Join` of two elements.
unfoldable pub path_join : Str → Str → Str
unfolding clean
path_join [] [] = []
path_join [] (d ∷ t) = clean (d ∷ t)
path_join (c ∷ s) [] = clean (c ∷ s)
path_join (c ∷ s) (d ∷ t) = clean (c ∷ s ++ b'/' ∷ d ∷ t)

path_runs :
    (path_join (codes "/usr/lib/") (codes "../c.so") ≡ codes "/usr/c.so")
    × (path_join (codes "a") (codes "../../b/./c/") ≡ codes "../b/c")
    × (split_path (codes "/lib/c.so") ≡ (codes "/lib/", codes "c.so"))
    × (trim_path (codes " /a b ") ≡ codes "/a b")
    × (trim_path (194 ∷ 160 ∷ codes "/a" ++ 226 ∷ 128 ∷ 137 ∷ codes " ") ≡ codes "/a")
    × (has_suffix (codes "/.") (codes "/root/.") ≡ true)
unfolding path_join split_path trim_path has_suffix split join
path_runs = (refl, refl, refl, refl, refl, refl)
