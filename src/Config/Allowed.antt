-- ===== src/Config/Allowed.antt =====
-- What `resolveAllowedPath` of internal/config/path_policy.go lets through.
use zoraxy_cert_warden.Base.{
  ◌≡◌, sym, ◌∙◌, ap, subst, codes, ◌++◌, ◌⊎◌, inl, inr, true, false, not, ◌||◌, Bool-cases, List,
  [], ◌∷◌, Str, str_eq, ◌==◌, arith,
}
use zoraxy_cert_warden.Text.{trim_space}
use zoraxy_cert_warden.Text.FilePath.{is_abs, clean}
use zoraxy_cert_warden.Failure.{wrapf, ok, within, ◌>>=◌, >>=-eq-ok, within-eq-ok}
use zoraxy_cert_warden.Host.{Host}
use zoraxy_cert_warden.Config.Policy.{
  is_safe_path, path_within_root, resolve_path, search_roots, resolve_allowed_path,
}

-- The resolved path lies in one of the roots, resolved as well.
abbrev pub WithinSome : Host → Str → List Str → Type 0
WithinSome h resolved [] = ⊥
WithinSome h resolved (root ∷ roots) =
    ((resolved_root : Str) × (resolve_path h root ≡ ok resolved_root)
      × (path_within_root resolved resolved_root ≡ true))
    ⊎ WithinSome h resolved roots

-- What a path that is let through has in common with its resolution.
pub record Allowed (h : Host) (path : Str) (roots : List Str) (resolved : Str) : Type 0 where
  pub absolute : is_abs (trim_space path) ≡ true
  pub normalized : clean (trim_space path) ≡ trim_space path
  pub safe : is_safe_path (trim_space path) ≡ true
  pub resolution : resolve_path h (trim_space path) ≡ ok resolved
  pub contained : WithinSome h resolved roots

search_roots_sound :
    (h : Host) (label resolved r : Str) (roots : List Str)
    → search_roots h label resolved roots ≡ ok r
    → (r ≡ resolved) × WithinSome h resolved roots
unfolding search_roots
search_roots_sound h label resolved r [] e = cc
search_roots_sound h label resolved r (root ∷ roots) e =
    let (rr, found, chosen) = >>=-eq-ok (within _ (resolve_path h root)) _ e in
    elim (Bool-cases (path_within_root resolved rr)) [
      | inl inside ↦ (ground arith, inl (rr, within-eq-ok _ _ found, inside))
      | inr out ↦
          let rest : search_roots h label resolved roots ≡ ok r = ground arith in
          let (same, some_root) = search_roots_sound h label resolved r roots rest in
          (same, inr some_root)
    ]

-- If the path policy lets a path through, then for every file system the trimmed path is
-- absolute, normalised and of safe characters, and what is returned is its resolution, and lies in
-- the resolution of one of the allowed roots.
pub resolve_allowed_path-Allowed :
    (h : Host) (path : Str) (roots : List Str) (label resolved : Str)
    → resolve_allowed_path h path roots label ≡ ok resolved
    → Allowed h path roots resolved
unfolding resolve_allowed_path str_eq
resolve_allowed_path-Allowed h path roots label resolved e =
    let t : Str = trim_space path in
    let form : (t == [] || not (is_abs t) || not (clean t == t)) ≡ false = ground arith in
    let chars : is_safe_path t ≡ true = ground arith in
    let e2 : (within (λ e. wrapf (codes "failed to resolve " ++ (label ++ codes " path: ")) e [])
            (resolve_path h t)
          >>= λ r. search_roots h label r roots)
        ≡ ok resolved =
      ground arith in
    let (r, found, e3) = >>=-eq-ok (within _ (resolve_path h t)) _ e2 in
    let (same, some_root) = search_roots_sound h label r resolved roots e3 in
    record {
      absolute = ground arith;
      normalized = ground arith;
      safe = chars;
      resolution = within-eq-ok _ _ found ∙ ap ok (sym same);
      contained = subst (λ u. WithinSome h u roots) (sym same) some_root;
    }
