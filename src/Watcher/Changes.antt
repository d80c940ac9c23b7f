-- ===== src/Watcher/Changes.antt =====
-- internal/watcher/watcher.go: which changes of the files a poll reports.
use zoraxy_cert_warden.Base.{
  ℕ, Bool, true, false, Option, none, some, List, [], ◌∷◌, Str, str_eq, nat_eq, if◌then◌else◌, ◌≡◌,
  refl, arith, All, contains, sym, inl, inr, subst, Bool-cases, ◌⊎◌, ◌↔◌,
}
use zoraxy_cert_warden.CertUtil.{Bytes}
use zoraxy_cert_warden.Watcher.Polling.{
  Stat, OpenFile, no_snapshot, of_stat, of_path, of_open, with_open_stat, digest_of, Files,
  FileSnapshot, snapshot, other_file, other_digest, existing_differ, snapshots_differ, Snapshots,
  lookup_snapshot, is_news, baseline, poll_loop, poll_changed,
}

-- Two snapshots show the same file: it is missing in both, or all that they know of it agrees.
abbrev pub SameView : FileSnapshot → FileSnapshot → Type 0
SameView a b =
    ((a.exists ≡ false) × (b.exists ≡ false))
    ⊎ ((a.exists ≡ true)
        × (b.exists ≡ true)
        × (a.size ≡ b.size)
        × (a.mod_time ≡ b.mod_time)
        × (a.mode ≡ b.mode)
        × (other_file a.info b.info ≡ false)
        × (a.digest ≡ b.digest))

other_digest-eq : (a b : Option Bytes) → (other_digest a b ≡ false) ↔ (a ≡ b)
unfolding other_digest str_eq
other_digest-eq none none = (λ e. refl, λ e. refl)
other_digest-eq (some a) (some b) = (λ e. ground arith, λ e. ground arith)
other_digest-eq none (some b) = (λ e. cc, λ e. cc)
other_digest-eq (some a) none = (λ e. cc, λ e. cc)

snapshots_differ-SameView : (a b : FileSnapshot) → (snapshots_differ a b ≡ false) ↔ SameView a b
unfolding snapshots_differ existing_differ nat_eq
snapshots_differ-SameView a b =
    let d = other_digest-eq a.digest b.digest in (λ e. ground (arith, d), λ e. ground (arith, d))

other_file_refl : (a : Option ℕ) → other_file a a ≡ false
unfolding other_file nat_eq
other_file_refl none = refl
other_file_refl (some a) = ground arith

snapshots_differ_refl : (a : FileSnapshot) → snapshots_differ a a ≡ false
snapshots_differ_refl a = (snapshots_differ-SameView a a).1 (ground (arith, other_file_refl a.info))

no_news : (b c : Bool) → (if b then true else c) ≡ false → (b ≡ false) × (c ≡ false)
no_news true c e = cc
no_news false c e = (refl, e)

module _ (fs : Files) where
  abbrev Unchanged : Snapshots → List Str → Type 0
  Unchanged seen paths = All (λ p. is_news (lookup_snapshot seen p) (snapshot fs p) ≡ false) paths

  add_seen :
      (seen : Snapshots) (p : Str)
      → is_news (lookup_snapshot seen p) (snapshot fs p) ≡ false
      → (paths : List Str) → Unchanged ((p, snapshot fs p) ∷ seen) paths ↔ Unchanged seen paths
  unfolding lookup_snapshot is_news str_eq
  add_seen seen p n [] = (λ u. u, λ u. u)
  add_seen seen p n (q ∷ paths) =
      let later = add_seen seen p n paths in
      let same = snapshots_differ_refl (snapshot fs q) in
      (λ u. (ground (arith, same), later.0 u.1), λ u. (ground (arith, same), later.1 u.1))

  poll_loop-Unchanged :
      (changed : Bool) (paths : List Str) (seen : Snapshots)
      → ((poll_loop fs changed paths seen).0 ≡ false) ↔ ((changed ≡ false) × Unchanged seen paths)
  unfolding poll_loop
  poll_loop-Unchanged changed [] seen = (λ e. (e, tt), λ e. e.0)
  poll_loop-Unchanged changed (p ∷ paths) seen =
      let later =
        poll_loop-Unchanged
          (if is_news (lookup_snapshot seen p) (snapshot fs p) then true else changed) paths
          ((p, snapshot fs p) ∷ seen) in
      (
        λ e.
            let (c, u) = later.0 e in
            let (n, k) = no_news (is_news (lookup_snapshot seen p) (snapshot fs p)) changed c in
            (k, (n, (add_seen seen p n paths).0 u)),
        λ e. later.1 (ground arith, (add_seen seen p e.1.0 paths).1 e.1.1),
      )

  poll_changed-Unchanged :
      (paths : List Str) (seen : Snapshots)
      → ((poll_changed fs paths seen).0 ≡ false) ↔ Unchanged seen paths
  unfolding poll_changed
  poll_changed-Unchanged paths seen =
      let l = poll_loop-Unchanged false paths seen in (λ e. (l.0 e).1, λ u. l.1 (refl, u))

  lookup_snapshot-baseline :
      (paths : List Str) (seen : Snapshots) (p : Str)
      → lookup_snapshot (baseline fs paths seen) p
        ≡ (if contains paths p then some (snapshot fs p) else lookup_snapshot seen p)
  unfolding baseline lookup_snapshot str_eq
  lookup_snapshot-baseline [] seen p = refl
  lookup_snapshot-baseline (q ∷ paths) seen p =
      ground (arith, lookup_snapshot-baseline paths ((q, snapshot fs q) ∷ seen) p)

-- The files that a poll looks at are those of the baseline.
baseline-SameView :
    (before after : Files) (paths rest : List Str)
    → ((p : Str) → contains rest p ≡ true → contains paths p ≡ true)
    → Unchanged after (baseline before paths []) rest
      ↔ All (λ p. SameView (snapshot before p) (snapshot after p)) rest
unfolding is_news str_eq
baseline-SameView before after paths [] within = (λ u. u, λ u. u)
baseline-SameView before after paths (p ∷ rest) within =
    let l = lookup_snapshot-baseline before paths [] p in
    let c = within p (ground arith) in
    let d = snapshots_differ-SameView (snapshot before p) (snapshot after p) in
    let later = baseline-SameView before after paths rest (λ q h. within q (ground arith)) in
    (
      λ u. (d.0 (ground (arith, l, c)), later.0 u.1),
      λ v. (ground (arith, l, c, d.1 v.0), later.1 v.1),
    )

-- What a look at a path shows, by the calls that it makes: nothing; or the attributes of a file, as
-- the open file has them if it is regular and tells, with the SHA-256 sum of its content if it could
-- be read to the end.
pub data Shows (fs : Files) (p : Str) : Option (Stat × Option Bytes) → Type 0 where
  missing : fs.stat_file p ≡ none → Shows fs p none
  not_regular :
      (info : Stat)
      → fs.stat_file p ≡ some info
      → info.regular_file ≡ false
      → Shows fs p (some (info, none))
  not_opened :
      (info : Stat)
      → fs.stat_file p ≡ some info
      → info.regular_file ≡ true
      → fs.open_file p ≡ none
      → Shows fs p (some (info, none))
  opened :
      (info seen : Stat) (file : OpenFile) (sum : Option Bytes)
      → fs.stat_file p ≡ some info
      → info.regular_file ≡ true
      → fs.open_file p ≡ some file
      → ((file.opened_stat ≡ some seen) ⊎ ((file.opened_stat ≡ none) × (seen ≡ info)))
      → (((content : Bytes) × (file.content ≡ some content) × (sum ≡ some (fs.sha256_sum content)))
          ⊎ ((file.content ≡ none) × (sum ≡ none)))
      → Shows fs p (some (seen, sum))

-- The same size, time, mode and identity, and the same sum or none both times.
abbrev pub Same : Option (Stat × Option Bytes) → Option (Stat × Option Bytes) → Type 0
Same none none = Unit
Same none (some b) = ⊥
Same (some a) none = ⊥
Same (some (a, d)) (some (b, e)) =
    (a.size ≡ b.size)
    × (a.mod_time ≡ b.mod_time)
    × (a.mode ≡ b.mode)
    × (a.identity ≡ b.identity)
    × (d ≡ e)

-- The path shows the same before and after.
abbrev pub Unaltered : Files → Files → Str → Type 0
Unaltered before after p =
    (a b : Option (Stat × Option Bytes)) × Shows before p a × Shows after p b × Same a b

abbrev snapshot_of : Option (Stat × Option Bytes) → FileSnapshot
snapshot_of none = no_snapshot
snapshot_of (some (info, d)) = record (of_stat info) { digest = d }

Same-SameView :
    (a b : Option (Stat × Option Bytes)) → SameView (snapshot_of a) (snapshot_of b) ↔ Same a b
unfolding other_file nat_eq
Same-SameView none none = (λ v. tt, λ s. inl (refl, refl))
Same-SameView none (some b) = (λ v. ground (arith, v), λ s. absurd s)
Same-SameView (some a) none = (λ v. ground (arith, v), λ s. absurd s)
Same-SameView (some (a, d)) (some (b, e)) = (λ v. ground (arith, v), λ s. ground (arith, s))

-- A snapshot is what the path shows.
Shows-snapshot :
    (fs : Files) (p : Str) (a : Option (Stat × Option Bytes))
    → Shows fs p a
    → snapshot fs p ≡ snapshot_of a
unfolding snapshot of_path of_open with_open_stat digest_of
Shows-snapshot fs p _ (missing e) = rw e refl
Shows-snapshot fs p _ (not_regular info e r) = rw (e, r) refl
Shows-snapshot fs p _ (not_opened info e r o) = rw (e, r, o) refl
Shows-snapshot fs p _ (opened info seen file sum e r o (inl t) (inl (content, c, d))) =
    rw (e, r, o, t, c, d) refl
Shows-snapshot fs p _ (opened info seen file sum e r o (inl t) (inr (c, d))) =
    rw (e, r, o, t, c, d) refl
Shows-snapshot fs p _ (opened info seen file sum e r o (inr (t, i)) (inl (content, c, d))) =
    rw (e, r, o, t, i, c, d) refl
Shows-snapshot fs p _ (opened info seen file sum e r o (inr (t, i)) (inr (c, d))) =
    rw (e, r, o, t, i, c, d) refl

shown_file :
    (fs : Files) (p : Str) (info : Stat) (file : OpenFile)
    → fs.stat_file p ≡ some info
    → info.regular_file ≡ true
    → fs.open_file p ≡ some file
    → (t : Option Stat) → file.opened_stat ≡ t
    → (c : Option Bytes) → file.content ≡ c
    → (a : Option (Stat × Option Bytes)) × Shows fs p a
shown_file fs p info file e r o (some seen) t (some content) c =
    (_, opened info seen file (some (fs.sha256_sum content)) e r o (inl t) (inl (content, c, refl)))
shown_file fs p info file e r o (some seen) t none c =
    (_, opened info seen file none e r o (inl t) (inr (c, refl)))
shown_file fs p info file e r o none t (some content) c = (
  _,
  opened info info file (some (fs.sha256_sum content)) e r o (inr (t, refl))
      (inl (content, c, refl)),
)
shown_file fs p info file e r o none t none c =
    (_, opened info info file none e r o (inr (t, refl)) (inr (c, refl)))

-- Every path shows something.
shown :
    (fs : Files) (p : Str) (s : Option Stat)
    → fs.stat_file p ≡ s
    → (o : Option OpenFile) → fs.open_file p ≡ o
    → (a : Option (Stat × Option Bytes)) × Shows fs p a
shown fs p none e o f = (none, missing e)
shown fs p (some info) e o f = elim (Bool-cases info.regular_file) [
  | inr r ↦ (_, not_regular info e r)
  | inl r ↦ of_open_file o f r
]
  where
    of_open_file :
        (o : Option OpenFile)
        → fs.open_file p ≡ o
        → info.regular_file ≡ true
        → (a : Option (Stat × Option Bytes)) × Shows fs p a
    of_open_file none f r = (_, not_opened info e r f)
    of_open_file (some file) f r =
        shown_file fs p info file e r f file.opened_stat refl file.content refl

SameView-Unaltered :
    (before after : Files) (p : Str)
    → SameView (snapshot before p) (snapshot after p) ↔ Unaltered before after p
SameView-Unaltered before after p = (
  λ v.
      let (a, x) = shown before p (before.stat_file p) refl (before.open_file p) refl in
      let (b, y) = shown after p (after.stat_file p) refl (after.open_file p) refl in
      (
        a,
        b,
        x,
        y,
        (Same-SameView a b).0 (subst2 (Shows-snapshot before p a x) (Shows-snapshot after p b y) v),
      ),
  λ (a, b, x, y, s).
      subst2 (sym (Shows-snapshot before p a x)) (sym (Shows-snapshot after p b y))
        ((Same-SameView a b).1 s),
)
  where
    subst2 : {a b c d : FileSnapshot} → a ≡ b → c ≡ d → SameView a c → SameView b d
    subst2 {b = b} {c = c} e f v = subst (λ z. SameView b z) f (subst (λ z. SameView z c) e v)

All-Unaltered :
    (before after : Files) (paths : List Str)
    → All (λ p. SameView (snapshot before p) (snapshot after p)) paths
      ↔ All (λ p. Unaltered before after p) paths
All-Unaltered before after [] = (λ a. tt, λ a. tt)
All-Unaltered before after (p ∷ paths) =
    let here = SameView-Unaltered before after p in
    let later = All-Unaltered before after paths in
    (λ a. (here.0 a.0, later.0 a.1), λ a. (here.1 a.0, later.1 a.1))

-- After the baseline of `Start`, the first poll reports no change if and only if every watched path
-- shows the same as at the start: there is nothing, as before, or there is a file with the same
-- size, time, mode and identity, of which the SHA-256 sum is the same, or could not be taken both
-- times. What a path shows is said by the outcomes of the calls that look at it: a file is read
-- only if it is regular, and the attributes are those of the open file where it tells them.
pub first_poll_iff :
    (before after : Files) (paths : List Str)
    → ((poll_changed after paths (baseline before paths [])).0 ≡ false)
      ↔ All (λ p. Unaltered before after p) paths
first_poll_iff before after paths =
    let u = poll_changed-Unchanged after paths (baseline before paths []) in
    let v = baseline-SameView before after paths paths (λ p h. h) in
    let w = All-Unaltered before after paths in (λ e. w.0 (v.0 (u.0 e)), λ a. u.1 (v.1 (w.1 a)))
