-- ===== src/Manager/SameSecrets.antt =====
-- cmd/cert-sync/main.go: what comparing the credentials comes to, read as maps from names.
use zoraxy_cert_warden.Base.{
  ◌≤◌, Bool, true, false, Option, none, some, List, [], ◌∷◌, Str, str_eq, nat_eq, length, ◌≡◌, refl,
  sym, ◌∙◌, ap, arith, contains, Distinct, Distinct-length, ◌↔◌, inl, inr, Bool-cases,
}
use zoraxy_cert_warden.Config.Validate.{is_some}
use zoraxy_cert_warden.SecretStore.{Credentials, Secrets, lookup_secret}
use zoraxy_cert_warden.Manager.Credentials.{same_credentials, is_same, all_in, secrets_equal}

-- The names of the entries.
abbrev pub names_of : Secrets → List Str
names_of [] = []
names_of ((n, c) ∷ rest) = n ∷ names_of rest

same_credentials-eq : (a b : Credentials) → (same_credentials a b ≡ true) ↔ (a ≡ b)
unfolding same_credentials str_eq
same_credentials-eq a b = (λ e. ground arith, λ e. ground arith)

abbrev pub SameMap : Secrets → Secrets → Type 0
SameMap a b = (name : Str) → lookup_secret a name ≡ lookup_secret b name

abbrev pub has : Secrets → Str → Bool
has l n = contains (names_of l) n

is_some-lookup_secret : (l : Secrets) (n : Str) → is_some (lookup_secret l n) ≡ has l n
unfolding lookup_secret is_some str_eq
is_some-lookup_secret [] n = refl
is_some-lookup_secret ((k, d) ∷ l) n = ground (arith, is_some-lookup_secret l n)

is_same-eq : (o : Option Credentials) (c : Credentials) → (is_same o c ≡ true) ↔ (o ≡ some c)
unfolding is_same
is_same-eq none c = (λ e. cc, λ e. cc)
is_same-eq (some a) c =
    let s = same_credentials-eq a c in (λ e. ground (arith, s), λ e. ground (arith, s))

-- Every entry of the first map is in the second.
abbrev Within : Secrets → Secrets → Type 0
Within a b =
    (name : Str) (c : Credentials) → lookup_secret a name ≡ some c → lookup_secret b name ≡ some c

all_in-Within : (a b : Secrets) → all_in a b ≡ true → Within a b
unfolding all_in lookup_secret str_eq
all_in-Within [] b e name c l = cc
all_in-Within ((n, d) ∷ a) b e name c l =
    let s = is_same-eq (lookup_secret b n) d in
    ground (arith, s, all_in-Within a b (ground arith) name c)

Within-tail :
    (n : Str) (c : Credentials) (a b : Secrets)
    → has a n ≡ false
    → Within ((n, c) ∷ a) b
    → Within a b
unfolding lookup_secret is_some str_eq
Within-tail n c a b d w name c' l = w name c' (ground (arith, is_some-lookup_secret a name, l, d))

Within-all_in : (a b : Secrets) → Distinct (names_of a) → Within a b → all_in a b ≡ true
unfolding all_in lookup_secret str_eq
Within-all_in [] b d w = refl
Within-all_in ((n, c) ∷ a) b d w =
    let s = is_same-eq (lookup_secret b n) c in
    let later = Within-all_in a b d.1 (Within-tail n c a b d.0 w) in
    ground (arith, s, w n c (ground arith), later)

Within-has : (a b : Secrets) → Within a b → (n : Str) → has a n ≡ true → has b n ≡ true
unfolding is_some
Within-has a b w n h = of_lookup (lookup_secret a n) refl
  where
    of_lookup : (o : Option Credentials) → lookup_secret a n ≡ o → has b n ≡ true
    of_lookup none e = ground (arith, is_some-lookup_secret a n)
    of_lookup (some c) e = ground (arith, is_some-lookup_secret b n, w n c e)

length-names_of : (l : Secrets) → length (names_of l) ≡ length l
length-names_of [] = refl
length-names_of ((n, c) ∷ l) = omega (arith, length-names_of l)

-- Of two maps of one size, the one within the other has all its names.
Within-no_more :
    (a b : Secrets)
    → Distinct (names_of a)
    → length a ≡ length b
    → Within a b
    → (n : Str) → has b n ≡ true
    → has a n ≡ true
unfolding str_eq
Within-no_more a b d l w n h = elim (Bool-cases (has a n)) [
  | inl e ↦ e
  | inr e ↦
      let more =
        Distinct-length (n ∷ names_of a) (names_of b) (e, d)
          (λ x m. ground (arith, Within-has a b w x)) in
      absurd (omega (arith, more, l, length-names_of a, length-names_of b))
]

Within-SameMap :
    (a b : Secrets) → Distinct (names_of a) → length a ≡ length b → Within a b → SameMap a b
unfolding is_some
Within-SameMap a b d l w n = of_lookup (lookup_secret a n) refl
  where
    of_lookup :
        (o : Option Credentials) → lookup_secret a n ≡ o → lookup_secret a n ≡ lookup_secret b n
    of_lookup none e =
        ground
          (arith, is_some-lookup_secret a n, is_some-lookup_secret b n, Within-no_more a b d l w n)
    of_lookup (some c) e = e ∙ sym (w n c e)

SameMap-length : (a b : Secrets) → Distinct (names_of a) → SameMap a b → length a ≤ length b
SameMap-length a b d s = omega (
  arith,
  Distinct-length (names_of a) (names_of b) d (λ n h.
      sym (is_some-lookup_secret b n) ∙ ap is_some (sym (s n)) ∙ is_some-lookup_secret a n ∙ h),
  length-names_of a,
  length-names_of b,
)

-- On maps, where no name stands twice, `secretsEqual` holds exactly where both maps give every
-- name the same credentials.
pub secrets_equal_iff :
    (a b : Secrets)
    → Distinct (names_of a)
    → Distinct (names_of b)
    → (secrets_equal a b ≡ true) ↔ ((name : Str) → lookup_secret a name ≡ lookup_secret b name)
unfolding secrets_equal nat_eq
secrets_equal_iff a b da db = (
  λ e. Within-SameMap a b da (ground arith) (all_in-Within a b (ground arith)),
  λ s.
      let w = Within-all_in a b da (λ n c l. sym (s n) ∙ l) in
      let l = SameMap-length a b da s in
      let m = SameMap-length b a db (λ n. sym (s n)) in ground (arith, w, l, m),
)
