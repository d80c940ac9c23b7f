-- ===== src/Config/Unique.antt =====
-- When `validate` of internal/config/config.go accepts a configuration.
use zoraxy_cert_warden.Base.{
  suc, NewTo, NewTo-cons, NewTo-uncons, Fresh-nil, not, ◌↔◌, ℕ, ◌≡◌, refl, Bool, true, false, ◌&&◌,
  List, [], ◌∷◌, Str, str_eq, pair_eq, contains, if◌then◌else◌, arith, Distinct,
}
use zoraxy_cert_warden.Failure.{ok, >>=-eq-ok, >>-eq-ok, reject-eq-ok, within-eq-ok, reject, within}
use zoraxy_cert_warden.Host.{Host}
use zoraxy_cert_warden.Config.{CertificateConfig, Config}
use zoraxy_cert_warden.Config.Policy.{PathPolicy}
use zoraxy_cert_warden.Config.Validate.{validate_certificate}
use zoraxy_cert_warden.Config.Whole.{
  nothing_seen, validate_normalized, is_log_level, Seen, extend, note_certificate, validate_from,
}

abbrev pub names : List CertificateConfig → List Str
names [] = []
names (c ∷ cs) = c.name ∷ names cs

-- The destination of each certificate: its resolved directory and its name.
abbrev pub destinations : List CertificateConfig → List Str → List (Str × Str)
destinations (c ∷ cs) (d ∷ ds) = (d, c.destination.target_name) ∷ destinations cs ds
destinations _ _ = []

-- The resolved directories of the certificates that ask to be the fallback.
abbrev pub fallback_directories : List CertificateConfig → List Str → List Str
fallback_directories (c ∷ cs) (d ∷ ds) =
    if c.fallback then d ∷ fallback_directories cs ds else fallback_directories cs ds
fallback_directories _ _ = []

note_ok :
    (seen : Seen) (d : Str) (c : CertificateConfig) (seen' : Seen)
    → note_certificate seen d c ≡ ok seen'
    → (seen' ≡ extend seen d c)
      × (contains seen.names c.name ≡ false)
      × (contains seen.destinations (d, c.destination.target_name) ≡ false)
      × ((c.fallback && contains seen.fallback_directories d) ≡ false)
unfolding note_certificate
note_ok seen d c seen' e = ground arith

note_ok_complete :
    (seen : Seen) (d : Str) (c : CertificateConfig)
    → contains seen.names c.name ≡ false
    → contains seen.destinations (d, c.destination.target_name) ≡ false
    → (c.fallback && contains seen.fallback_directories d) ≡ false
    → note_certificate seen d c ≡ ok (extend seen d c)
unfolding note_certificate
note_ok_complete seen d c n k f = rw (n, k, f)

not-false : {b : Bool} → not b ≡ false → b ≡ true
not-false {b = true} e = refl
not-false {b = false} e = cc

-- A conditional entry is new to what was seen exactly when the rest is new after it.
NewTo-if :
    (b : Bool) (seen : List Str) (d : Str) (xs : List Str)
    → (b && contains seen d) ≡ false
    → NewTo (if b then d ∷ seen else seen) xs
    → NewTo seen (if b then d ∷ xs else xs)
NewTo-if true seen d xs n f = NewTo-cons seen d xs n f
NewTo-if false seen d xs n f = f

NewTo-of_if :
    (b : Bool) (seen : List Str) (d : Str) (xs : List Str)
    → NewTo seen (if b then d ∷ xs else xs)
    → ((b && contains seen d) ≡ false) × NewTo (if b then d ∷ seen else seen) xs
NewTo-of_if true seen d xs f = NewTo-uncons seen d xs f
NewTo-of_if false seen d xs f = (refl, f)

module _ (h : Host) (check_paths : Bool) (policy : PathPolicy) where
  -- Each certificate is valid by itself, and its directory resolves to the one listed.
  abbrev pub EachValid : List CertificateConfig → List Str → Type 0
  EachValid [] [] = Unit
  EachValid (c ∷ cs) (d ∷ ds) =
      (validate_certificate h check_paths policy c ≡ ok d) × EachValid cs ds
  EachValid _ _ = ⊥

  abbrev pub AcceptedFrom : Seen → List CertificateConfig → List Str → Type 0
  AcceptedFrom seen cs ds =
      EachValid cs ds
      × NewTo seen.names (names cs)
      × NewTo seen.destinations (destinations cs ds)
      × NewTo seen.fallback_directories (fallback_directories cs ds)

  validate_from_sound :
      (i : ℕ) (seen : Seen) (cs : List CertificateConfig)
      → validate_from h check_paths policy i seen cs ≡ ok tt
      → (ds : List Str) × AcceptedFrom seen cs ds
  unfolding validate_from
  validate_from_sound i seen [] e = ([], (tt, (tt, tt), (tt, tt), (tt, tt)))
  validate_from_sound i seen (c ∷ cs) e =
      let (d, valid, e1) = >>=-eq-ok (within _ (validate_certificate h check_paths policy c)) _ e in
      let (seen', noted, e2) = >>=-eq-ok (note_certificate seen d c) _ e1 in
      let (same, n, k, f) = note_ok seen d c seen' noted in
      let (ds, accepted) = validate_from_sound (suc i) (extend seen d c) cs (rw same at e2) in
      let (each, ns, ks, fs) = accepted in
      (
        d ∷ ds,
        (
          (within-eq-ok _ _ valid, each),
          NewTo-cons _ _ _ n ns,
          NewTo-cons _ _ _ k ks,
          NewTo-if c.fallback _ _ _ f fs,
        ),
      )

  validate_from_complete :
      (i : ℕ) (seen : Seen) (cs : List CertificateConfig) (ds : List Str)
      → AcceptedFrom seen cs ds
      → validate_from h check_paths policy i seen cs ≡ ok tt
  unfolding validate_from
  validate_from_complete i seen [] ds a = refl
  validate_from_complete i seen (c ∷ cs) [] a = absurd a.0
  validate_from_complete i seen (c ∷ cs) (d ∷ ds) ((valid, each), ns, ks, fs) =
      let (n, ns') = NewTo-uncons _ _ _ ns in
      let (k, ks') = NewTo-uncons _ _ _ ks in
      let (f, fs') = NewTo-of_if c.fallback _ _ _ fs in
      rw (valid, note_ok_complete seen d c n k f)
        (validate_from_complete (suc i) (extend seen d c) cs ds (each, ns', ks', fs'))

  -- What a valid configuration is: its log level is known, each certificate is valid by itself,
  -- and names, destinations and fallback directories do not repeat.
  pub record IsValid (cfg : Config) : Type 0 where
    pub log_level_known : is_log_level cfg.log_level ≡ true
    pub directories : List Str
    pub each_valid : EachValid cfg.certificates directories
    pub names_distinct : Distinct (names cfg.certificates)
    pub destinations_distinct : Distinct (destinations cfg.certificates directories)
    pub fallbacks_distinct : Distinct (fallback_directories cfg.certificates directories)

  -- The validation accepts a normalised configuration exactly when its log level is known, each of
  -- its certificates passes its own validation with some resolved directory, and no certificate
  -- name, no destination (resolved directory and target name) and no resolved directory of a
  -- fallback certificate occurs twice.
  pub validate_iff_IsValid :
      (cfg : Config) → (validate_normalized h check_paths policy cfg ≡ ok tt) ↔ IsValid cfg
  unfolding validate_normalized
  validate_iff_IsValid cfg = (
    λ e.
        let (known, e1) = >>-eq-ok (reject (not (is_log_level cfg.log_level)) _) _ e in
        let (ds, accepted) = validate_from_sound 0 nothing_seen cfg.certificates e1 in
        let (each, ns, ks, fs) = accepted in
        record {
          log_level_known = not-false (reject-eq-ok _ _ known);
          directories = ds;
          each_valid = each;
          names_distinct = ns.1;
          destinations_distinct = ks.1;
          fallbacks_distinct = fs.1;
        },
    λ v. rw v.log_level_known (
        validate_from_complete 0 nothing_seen cfg.certificates v.directories (
          v.each_valid,
          (Fresh-nil _, v.names_distinct),
          (Fresh-nil _, v.destinations_distinct),
          (Fresh-nil _, v.fallbacks_distinct),
        )),
  )
