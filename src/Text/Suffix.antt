-- ===== src/Text/Suffix.antt =====
-- A text that ends with another has it as a suffix (internal/sync/sync.go tests names so).
use mathlib.Core.List.{reverse, reverse-append}
use zoraxy_cert_warden.Base.{
  ◌≡◌, refl, ◌∙◌, sym, ap, ◌≢◌, true, false, [], ◌∷◌, ◌++◌, Str, arith, nat_eq,
}
use zoraxy_cert_warden.Text.{has_prefix, has_suffix}

has_prefix-append : (p s : Str) → has_prefix (p ++ s) p ≡ true
unfolding has_prefix nat_eq
has_prefix-append [] [] = refl
has_prefix-append [] (c ∷ s) = refl
has_prefix-append (c ∷ p) s = let rest = has_prefix-append p s in ground arith

pub has_suffix-append : (s p : Str) → has_suffix (s ++ p) p ≡ true
unfolding has_suffix
has_suffix-append s p =
    ap (λ t. has_prefix t (reverse p)) (reverse-append s p)
    ∙ has_prefix-append (reverse p) (reverse s)

-- A text without a suffix is none that ends with it.
pub differs_of_suffix :
    (p x : Str) → has_suffix x p ≡ false → (q stem : Str) → q ≡ stem ++ p → q ≢ x
differs_of_suffix p x other q stem e same =
    let yes = ap (λ t. has_suffix t p) e ∙ has_suffix-append stem p in
    let yes' = sym (ap (λ t. has_suffix t p) same) ∙ yes in cc
