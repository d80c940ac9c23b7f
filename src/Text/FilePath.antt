-- ===== src/Text/FilePath.antt =====
-- The operations of Go's `path/filepath` package that the program uses, on Unix.
use mathlib.Core.List.{reverse}
use zoraxy_cert_warden.Base.{
  ℕ, Bool, true, false, not, ◌||◌, Option, none, some, List, [], ◌∷◌, ◌++◌, Str, ◌==◌, nat_eq,
  str_eq, if◌then◌else◌,
}

abbrev pub slash : ℕ
slash = b'/'

-- `strings.Split(s, sep)` at a separator of one character: the first part, and the others.
unfoldable pub split_at : ℕ → Str → Str × List Str
unfolding nat_eq
split_at sep [] = ([], [])
split_at sep (c ∷ s) =
    let (part, parts) = split_at sep s in if c == sep then ([], part ∷ parts) else (c ∷ part, parts)

unfoldable pub split : ℕ → Str → List Str
unfolding split_at
split sep s = let (part, parts) = split_at sep s in part ∷ parts

-- `strings.Join(parts, "/")`
unfoldable pub join_parts : List Str → Str
join_parts [] = []
join_parts (p ∷ []) = p
join_parts (p ∷ q ∷ ps) = p ++ (slash ∷ join_parts (q ∷ ps))

-- `filepath.IsAbs`
unfoldable pub is_abs : Str → Bool
unfolding nat_eq
is_abs [] = false
is_abs (c ∷ s) = c == slash

abbrev pub dot : Str
dot = b'.' ∷ []

abbrev pub dot_dot : Str
dot_dot = b'.' ∷ b'.' ∷ []

-- `..` under `Clean`: it takes back the last element, unless there is none or it is `..` itself.
unfoldable pub drop_last : Bool → List Str → List Str
unfolding str_eq
drop_last rooted [] = if rooted then [] else dot_dot ∷ []
drop_last rooted (q ∷ qs) = if q == dot_dot then dot_dot ∷ q ∷ qs else qs

-- One element of a path under `Clean`: `out` holds the elements kept so far, the last one first.
unfoldable pub clean_step : Bool → List Str → Str → List Str
unfolding str_eq drop_last
clean_step rooted out p =
    if p == [] || p == dot then out else if p == dot_dot then drop_last rooted out else p ∷ out

unfoldable pub clean_parts : Bool → List Str → List Str → List Str
unfolding clean_step
clean_parts rooted out [] = reverse out
clean_parts rooted out (p ∷ ps) = clean_parts rooted (clean_step rooted out p) ps

unfoldable pub render : Bool → List Str → Str
unfolding join_parts
render true ps = slash ∷ join_parts ps
render false [] = dot
render false (p ∷ ps) = join_parts (p ∷ ps)

-- `filepath.Clean`
unfoldable pub clean : Str → Str
unfolding clean_parts split render is_abs
clean s = render (is_abs s) (clean_parts (is_abs s) [] (split slash s))

unfoldable pub drop_slashes : Str → Str
unfolding nat_eq
drop_slashes [] = []
drop_slashes (c ∷ s) = if c == slash then drop_slashes s else c ∷ s

-- The text up to the first slash, without it.
unfoldable pub until_slash : Str → Str
unfolding split_at
until_slash s = (split_at slash s).0

-- The last element, turned round; an empty one stands for the root.
unfoldable pub last_element : Str → Str
last_element [] = slash ∷ []
last_element (b ∷ bs) = reverse (b ∷ bs)

-- `filepath.Base`
unfoldable pub base : Str → Str
unfolding drop_slashes until_slash last_element
base [] = dot
base (c ∷ s) = last_element (until_slash (drop_slashes (reverse (c ∷ s))))

-- The text from the first slash on.
unfoldable pub from_slash : Str → Str
unfolding nat_eq
from_slash [] = []
from_slash (c ∷ s) = if c == slash then c ∷ s else from_slash s

-- `filepath.Dir`
unfoldable pub dir : Str → Str
unfolding clean from_slash
dir s = clean (reverse (from_slash (reverse s)))

-- `filepath.Join` of two elements.
unfoldable pub join : Str → Str → Str
unfolding clean
join [] [] = []
join [] b = clean b
join a [] = clean a
join a b = clean (a ++ (slash ∷ b))

-- `strings.Repeat("../", n)` and the rest of the target, as the list of their elements.
unfoldable pub climb : List Str → List Str → List Str
climb [] targ = targ
climb (b ∷ bs) targ = dot_dot ∷ climb bs targ

-- What `filepath.Rel` returns once its arguments are split: the common elements go, an element
-- of the base that is `..` cannot be climbed out of, and `none` is the error.
unfoldable pub rel_parts : List Str → List Str → Option (List Str)
unfolding str_eq climb
rel_parts [] targ = some targ
rel_parts (b ∷ bs) [] = if b == dot_dot then none else some (climb (b ∷ bs) [])
rel_parts (b ∷ bs) (t ∷ ts) =
    if b == t
    then rel_parts bs ts
    else if b == dot_dot
    then none
    else some (climb (b ∷ bs) (t ∷ ts))

-- The elements of a cleaned path.
unfoldable pub parts_of : Str → List Str
unfolding clean_parts split is_abs
parts_of s = clean_parts (is_abs s) [] (split slash s)

unfoldable pub same_flag : Bool → Bool → Bool
same_flag true b = b
same_flag false b = not b

-- `filepath.Rel(base, targ)`
unfoldable pub rel : Str → Str → Option Str
unfolding parts_of rel_parts render same_flag
rel base targ =
    if same_flag (is_abs base) (is_abs targ)
    then elim (rel_parts (parts_of base) (parts_of targ)) [
      | none ↦ none
      | some ps ↦ some (render false ps)
    ]
    else none
