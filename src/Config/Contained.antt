-- ===== src/Config/Contained.antt =====
-- When `pathWithinRoot` of internal/config/path_policy.go takes a path to lie in a root.
use mathlib.Core.List.{reverse, reverse-cons}
use zoraxy_cert_warden.Base.{
  ◌≡◌, refl, sym, ◌∙◌, ap, ◌≢◌, ◌⊎◌, inl, inr, ◌↔◌, Bool, true, false, not, ◌&&◌, ◌||◌, Bool-cases,
  none, some, List, [], ◌∷◌, ◌++◌, Str, ◌==◌, str_eq, nat_eq, append_assoc, append-nil, arith, All,
  subst, if◌then◌else◌,
}
use zoraxy_cert_warden.Text.{has_prefix}
use zoraxy_cert_warden.Text.FilePath.{
  slash, split_at, split, join_parts, is_abs, dot, dot_dot, drop_last, clean_step, clean_parts,
  render, climb, rel_parts, parts_of, same_flag, rel,
}
use zoraxy_cert_warden.Config.Policy.{path_within_root}

-- An element of a path has no slash.
abbrev NoSlash : Str → Type 0
NoSlash = All (λ c. c ≢ slash)

-- An element of a cleaned absolute path is not `..` either.
abbrev Entry : Str → Type 0
Entry q = NoSlash q × (q ≢ dot_dot)

split_at-NoSlash : (s : Str) → NoSlash (split_at slash s).0 × All NoSlash (split_at slash s).1
unfolding split_at nat_eq
split_at-NoSlash [] = (tt, tt)
split_at-NoSlash (c ∷ s) = let (part, parts) = split_at-NoSlash s in go (c == slash) refl part parts
  where
    go :
        (b : Bool)
        → (c == slash) ≡ b
        → NoSlash (split_at slash s).0
        → All NoSlash (split_at slash s).1
        → NoSlash (split_at slash (c ∷ s)).0 × All NoSlash (split_at slash (c ∷ s)).1
    go true e part parts = rw e (tt, (part, parts))
    go false e part parts = rw e ((λ same. ground arith, part), parts)

clean_step-Entry :
    (out : List Str) (p : Str) → All Entry out → NoSlash p → All Entry (clean_step true out p)
unfolding clean_step drop_last str_eq
clean_step-Entry [] p h n = go (p == [] || p == dot) (p == dot_dot) refl
  where
    go : (a b : Bool) → (p == dot_dot) ≡ b → All Entry (if a then [] else if b then [] else p ∷ [])
    go true b e = tt
    go false true e = tt
    go false false e = ((n, λ same. ground arith), tt)
clean_step-Entry (q ∷ qs) p h n = go (p == [] || p == dot) (p == dot_dot) (q == dot_dot) refl refl
  where
    go :
        (a b c : Bool)
        → (p == dot_dot) ≡ b
        → (q == dot_dot) ≡ c
        → All Entry
            (if a then q ∷ qs else if b then (if c then dot_dot ∷ q ∷ qs else qs) else p ∷ q ∷ qs)
    go true b c e f = h
    go false true true e f = absurd (h.0.1 (ground arith))
    go false true false e f = h.1
    go false false c e f = ((n, λ same. ground arith), h)

All-reverse {ℓ} :
    {A : Type ℓ} (P : A → Type 0) (l out : List A) → All P l → All P out → All P (reverse l ++ out)
All-reverse P [] out h g = g
All-reverse P (x ∷ l) out h g =
    subst (All P)
      (sym (ap (λ r. r ++ out) (reverse-cons x l) ∙ append_assoc (reverse l) (x ∷ []) out))
      (All-reverse P l (x ∷ out) h.1 (h.0, g))

clean_parts-Entry :
    (out ps : List Str) → All Entry out → All NoSlash ps → All Entry (clean_parts true out ps)
unfolding clean_parts
clean_parts-Entry out [] h n =
    subst (All Entry) (append-nil (reverse out)) (All-reverse Entry out [] h tt)
clean_parts-Entry out (p ∷ ps) h n =
    clean_parts-Entry (clean_step true out p) ps (clean_step-Entry out p h n.0) n.1

parts_of-Entry : (s : Str) → is_abs s ≡ true → All Entry (parts_of s)
unfolding parts_of split
parts_of-Entry s e = rw e (clean_parts-Entry [] (split slash s) tt (split_at-NoSlash s))

-- A relative path that leaves its base.
abbrev leaves : Str → Bool
leaves r = not (not (r == dot_dot) && not (has_prefix r (dot_dot ++ (slash ∷ []))))

Entry-stays :
    (q t : Str) → Entry q → (t ≡ []) ⊎ ((u : Str) × (t ≡ slash ∷ u)) → leaves (q ++ t) ≡ false
unfolding has_prefix str_eq nat_eq
Entry-stays [] t (n, d) (inl e) = rw e refl
Entry-stays [] t (n, d) (inr (u, e)) = rw e refl
Entry-stays (a ∷ []) t (n, d) (inl e) = ground arith
Entry-stays (a ∷ []) t (n, d) (inr (u, e)) = ground arith
Entry-stays (a ∷ b ∷ []) t (n, d) (inl e) = ground arith
Entry-stays (a ∷ b ∷ []) t (n, d) (inr (u, e)) = ground arith
Entry-stays (a ∷ b ∷ c ∷ q) t (n, d) e = let third = n.1.1.0 in ground arith

render-stays : (ps : List Str) → All Entry ps → leaves (render false ps) ≡ false
unfolding render join_parts has_prefix str_eq nat_eq
render-stays [] h = refl
render-stays (p ∷ []) h =
    subst (λ s. leaves s ≡ false) (append-nil p) (Entry-stays p [] h.0 (inl refl))
render-stays (p ∷ q ∷ ps) h = Entry-stays p _ h.0 (inr (_, refl))

render-leaves : (ps : List Str) → leaves (render false (dot_dot ∷ ps)) ≡ true
unfolding render join_parts has_prefix str_eq nat_eq
render-leaves [] = refl
render-leaves (p ∷ ps) = refl

-- What `Rel` finds: the rest behind the base, or a path that begins by going up.
rel_parts-cases :
    (bs ts : List Str)
    → All Entry bs
    → ((rest : List Str) × (ts ≡ bs ++ rest) × (rel_parts bs ts ≡ some rest))
      ⊎ ((more : List Str) × (rel_parts bs ts ≡ some (dot_dot ∷ more))
          × ((rest : List Str) → ts ≢ bs ++ rest))
unfolding rel_parts climb str_eq
rel_parts-cases [] ts h = inl (ts, refl, refl)
rel_parts-cases (b ∷ bs) [] h = inr (climb bs [], ground arith, λ rest e. cc)
rel_parts-cases (b ∷ bs) (t ∷ ts) h = elim (Bool-cases (b == t)) [
  | inl e ↦
      let same : b ≡ t = ground arith in
      elim (rel_parts-cases bs ts h.1) [
        | inl (rest, split, found) ↦ inl (rest, cc, rw e found)
        | inr (more, found, none_fits) ↦ inr (more, rw e found, λ rest g. none_fits rest (cc))
      ]
  | inr e ↦ let entry = h.0.1 in inr (climb bs (t ∷ ts), ground arith, λ rest g. ground arith)
]

All-append-right {ℓ} : {A : Type ℓ} (P : A → Type 0) (xs ys : List A) → All P (xs ++ ys) → All P ys
All-append-right P [] ys h = h
All-append-right P (x ∷ xs) ys h = All-append-right P xs ys h.1

not_twice : (b : Bool) → b ≡ not (not b)
not_twice true = refl
not_twice false = refl

rel-rel_parts :
    (path root : Str) (ps : List Str)
    → is_abs path ≡ true
    → is_abs root ≡ true
    → rel_parts (parts_of root) (parts_of path) ≡ some ps
    → rel root path ≡ some (render false ps)
unfolding rel same_flag
rel-rel_parts path root ps p r found = ground arith

path_within_root-rel :
    (path root s : Str) → rel root path ≡ some s → path_within_root path root ≡ not (leaves s)
unfolding path_within_root
path_within_root-rel path root s e =
    ap
      (λ r. elim r [
        | none ↦ false
        | some s ↦ not (s == dot_dot) && not (has_prefix s (dot_dot ++ (slash ∷ [])))
      ])
      e
    ∙ not_twice _

path_within_root-rel_parts :
    (path root : Str) (ps : List Str)
    → is_abs path ≡ true
    → is_abs root ≡ true
    → rel_parts (parts_of root) (parts_of path) ≡ some ps
    → path_within_root path root ≡ not (leaves (render false ps))
path_within_root-rel_parts path root ps p r found =
    path_within_root-rel path root (render false ps) (rel-rel_parts path root ps p r found)

-- For two absolute paths, `pathWithinRoot` holds exactly when the elements of the cleaned path are
-- those of the cleaned root, followed by any others.
pub path_within_root_iff :
    (path root : Str)
    → is_abs path ≡ true
    → is_abs root ≡ true
    → (path_within_root path root ≡ true)
      ↔ ((rest : List Str) × (parts_of path ≡ parts_of root ++ rest))
path_within_root_iff path root p r =
    elim (rel_parts-cases (parts_of root) (parts_of path) (parts_of-Entry root r)) [
      | inl (rest, behind, found) ↦
          let entries =
            All-append-right Entry (parts_of root) rest
              (subst (All Entry) behind (parts_of-Entry path p)) in
          (
            λ h. (rest, behind),
            λ h.
                path_within_root-rel_parts path root rest p r found
                ∙ ap not (render-stays rest entries),
          )
      | inr (more, found, none_fits) ↦
          let out =
            path_within_root-rel_parts path root (dot_dot ∷ more) p r found
            ∙ ap not (render-leaves more) in
          (
            λ h. absurd (true_not_false (sym h ∙ out)),
            λ (rest, behind). absurd (none_fits rest behind),
          )
    ]
  where
    true_not_false : ◌≡◌ {A = Bool} true false → ⊥
    true_not_false e = cc
