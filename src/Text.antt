-- ===== src/Text.antt =====
-- The operations of Go's `strings` package that the program uses, on texts as code points.
pub mod FilePath
pub mod Laws
pub mod Suffix
use zoraxy_cert_warden.Base.{zero, suc, ◌/◌, ◌%◌, ℕ, Bool, true, false, ◌&&◌, ◌||◌, [], ◌∷◌, ◌+◌}
use zoraxy_cert_warden.Base.{Str, contains, ◌==◌, nat_eq, str_eq, if◌then◌else◌, leb}
use mathlib.Core.List.{reverse}

-- `unicode.IsSpace`
unfoldable pub is_space : ℕ → Bool
unfolding nat_eq
is_space c =
    (leb 9 c && leb c 13)
    || c == 32
    || c == 0x85
    || c == 0xa0
    || c == 0x1680
    || (leb 0x2000 c && leb c 0x200a)
    || c == 0x2028
    || c == 0x2029
    || c == 0x202f
    || c == 0x205f
    || c == 0x3000

-- `strings.TrimLeftFunc(s, unicode.IsSpace)`
unfoldable pub trim_left : Str → Str
unfolding is_space
trim_left [] = []
trim_left (c ∷ s) = if is_space c then trim_left s else c ∷ s

-- `strings.TrimSpace`
unfoldable pub trim_space : Str → Str
unfolding trim_left
trim_space s = reverse (trim_left (reverse (trim_left s)))

unfoldable pub has_prefix : Str → Str → Bool
unfolding nat_eq
has_prefix s [] = true
has_prefix [] (p ∷ ps) = false
has_prefix (c ∷ s) (p ∷ ps) = c == p && has_prefix s ps

unfoldable pub has_suffix : Str → Str → Bool
unfolding has_prefix
has_suffix s p = has_prefix (reverse s) (reverse p)

-- `strings.Contains`
unfoldable pub contains_text : Str → Str → Bool
unfolding has_prefix
contains_text [] p = has_prefix [] p
contains_text (c ∷ s) p = has_prefix (c ∷ s) p || contains_text s p

-- `strings.ContainsAny`
unfoldable pub contains_any : Str → Str → Bool
unfolding nat_eq
contains_any [] cs = false
contains_any (c ∷ s) cs = contains cs c || contains_any s cs

-- `unicode.ToLower`, on the letters whose lower case is an ASCII letter: A to Z, the dotted I and
-- the Kelvin sign. Other letters are kept.
unfoldable pub lower_rune : ℕ → ℕ
unfolding nat_eq
lower_rune c =
    if leb b'A' c && leb c b'Z'
    then c + 32
    else if c == 0x130
    then b'i'
    else if c == 0x212a
    then b'k'
    else c

-- `strings.ToLower`
unfoldable pub to_lower : Str → Str
unfolding lower_rune
to_lower [] = []
to_lower (c ∷ s) = lower_rune c ∷ to_lower s

digits : ℕ → ℕ → Str → Str
digits zero n acc = acc
digits (suc fuel) n acc =
    let rest = digits fuel (n / 10) ((b'0' + n % 10) ∷ acc) in
    if leb n 9 then (b'0' + n) ∷ acc else rest

-- `%d`
unfoldable pub decimal : ℕ → Str
unfolding digits
decimal n = digits (suc n) n []
