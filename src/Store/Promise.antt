-- ===== src/Store/Promise.antt =====
-- What `Save` of internal/config/store.go promises of the configuration file.
use mathlib.Core.List.{reverse, reverse-append}
use zoraxy_cert_warden.Base.{
  ℕ, ◌≡◌, refl, sym, ◌∙◌, ap, ◌≢◌, inl, inr, false, List, Option, none, some, [], ◌++◌,
  append_assoc, Str, codes, nat_eq,
}
use zoraxy_cert_warden.Text.{has_prefix, has_suffix}
use zoraxy_cert_warden.Text.Suffix.{differs_of_suffix}
use zoraxy_cert_warden.Text.FilePath.{dir}
use zoraxy_cert_warden.Failure.{Result, ok, err}
use zoraxy_cert_warden.Disk.{Node, file, Env, World, ◌>>=◌, ◌>>◌}
use zoraxy_cert_warden.Disk.Calls.{create_temp, remove}
use zoraxy_cert_warden.Disk.Effects.{Holds, remove_frame, create_temp_ok, create_temp_frame}
use zoraxy_cert_warden.Disk.Triples.{Triple, OnOk, attempt_rule, return_rule, At}
use zoraxy_cert_warden.Store.{backup_of, fill_and_replace, save_bytes, config_mode}
use zoraxy_cert_warden.Store.Rollback.{BackupName, SaveOutcome}
use zoraxy_cert_warden.Store.Saved.{fill_and_replace_settles}
use zoraxy_cert_warden.Store.Durable.{IsPlain}

-- The names that the temporary file of the configuration bears.
abbrev JsonTemp : Str → Type 0
JsonTemp q = (stem : Str) × (q ≡ stem ++ codes ".json.tmp")

JsonTemp-no_backup : (q : Str) → JsonTemp q → has_suffix q (codes ".backup") ≡ false
unfolding has_suffix has_prefix nat_eq
JsonTemp-no_backup q (stem, e) =
    ap (λ s. has_prefix (reverse s) (reverse (codes ".backup"))) e
    ∙ ap (λ s. has_prefix s (reverse (codes ".backup"))) (reverse-append stem (codes ".json.tmp"))

JsonTemp-of_parts :
    (a b c d : Str) {q : Str} → q ≡ a ++ (b ++ (c ++ (d ++ codes ".json.tmp"))) → JsonTemp q
JsonTemp-of_parts a b c d e = (a ++ (b ++ (c ++ d)), e ∙ simp append_assoc)

module _ (o : Env) (path : Str) (bytes : List ℕ)
    (no_temp : has_suffix path (codes ".json.tmp") ≡ false)
    (no_backup : has_suffix path (codes ".backup") ≡ false) where
  differs-JsonTemp : (q : Str) → JsonTemp q → path ≢ q
  differs-JsonTemp q (stem, e) same =
      differs_of_suffix (codes ".json.tmp") path no_temp q stem e (sym same)

  differs-BackupName : (q : Str) → BackupName q → path ≢ q
  differs-BackupName q (stem, e) same =
      differs_of_suffix (codes ".backup") path no_backup q stem e (sym same)

  temp_differs-BackupName : (tmp q : Str) → JsonTemp tmp → BackupName q → q ≢ tmp
  temp_differs-BackupName tmp q t (stem, e) =
      differs_of_suffix (codes ".backup") tmp (JsonTemp-no_backup tmp t) q stem e

  outcome_removed :
      (tmp : Str) (v : Option Node) (n : Node) (r : Result (Unit {0})) (w : World)
      → JsonTemp tmp
      → SaveOutcome path v n r w
      → SaveOutcome path v n r (remove o tmp w).1
  outcome_removed tmp v n (ok u) w t h = remove_frame o tmp path w (differs-JsonTemp tmp t) ∙ h
  outcome_removed tmp v n (err e) w t (inl h) =
      inl (remove_frame o tmp path w (differs-JsonTemp tmp t) ∙ h)
  outcome_removed tmp none n (err e) w t (inr (h, b)) =
      inr (remove_frame o tmp path w (differs-JsonTemp tmp t) ∙ h, tt)
  outcome_removed tmp (some m) n (err e) w t (inr (h, (q, named, held))) = inr (
    remove_frame o tmp path w (differs-JsonTemp tmp t) ∙ h,
    (q, named, remove_frame o tmp q w (temp_differs-BackupName tmp q t named) ∙ held),
  )

  abbrev Created : Option Node → Result Str → World → Type 0
  Created v r w = At path v w × OnOk (λ q w. Holds q (file [] 384) w × JsonTemp q) r w

  created :
      (v : Option Node)
      → Triple
          (At path v)
          (create_temp o (dir path) (codes ".config-") (codes ".json.tmp"))
          (Created v)
  created v = record {
    run = λ w h. (
      create_temp_frame o (dir path) (codes ".config-") (codes ".json.tmp") path w (
            differs-JsonTemp _
              (JsonTemp-of_parts (dir path) (codes "/") (codes ".config-") (o.token w.clock) refl))
          ∙ h,
      named w (create_temp o (dir path) (codes ".config-") (codes ".json.tmp") w).0 refl,
    );
  }
    where
      named :
          (w : World) (r : Result Str)
          → (create_temp o (dir path) (codes ".config-") (codes ".json.tmp") w).0 ≡ r
          → OnOk
              (λ q w. Holds q (file [] 384) w × JsonTemp q)
              r
              (create_temp o (dir path) (codes ".config-") (codes ".json.tmp") w).1
      named w (err e) eq = tt
      named w (ok q) eq =
          let (fresh, holds, name) =
            create_temp_ok o (dir path) (codes ".config-") (codes ".json.tmp") w eq in
          (
            holds,
            JsonTemp-of_parts (dir path) (codes "/") (codes ".config-") (o.token w.clock) name,
          )

  save_bytes_settles :
      (v : Option Node)
      → IsPlain v
      → Triple (At path v) (save_bytes o path bytes) (SaveOutcome path v (file bytes config_mode))
  unfolding save_bytes ◌>>=◌ ◌>>◌
  save_bytes_settles v plain =
      attempt_rule (Created v) (created v) (λ e. return_rule _ (λ w h. inl h.0))
        λ tmp. record {
          run = λ w (h, (t, j)).
              outcome_removed tmp v (file bytes config_mode)
                (fill_and_replace o path (dir path) tmp bytes w).0
                (fill_and_replace o path (dir path) tmp bytes w).1 j
                ((fill_and_replace_settles o path (dir path) tmp bytes (differs-JsonTemp tmp j)
                    (differs-BackupName (backup_of tmp) (tmp, refl))
                    (λ e. temp_differs-BackupName tmp (backup_of tmp) j (tmp, refl) (sym e)) v
                    plain).run
                  w (h, t));
        }

  -- If the path of the configuration names a file or nothing, and ends neither with `.json.tmp`
  -- nor with `.backup`, then whatever calls fail: a save that reports success has put exactly the
  -- new bytes at the path with the mode 0600; one that reports an error has left the path as it
  -- was, or has put the new bytes there and left what was there before, if anything, under a
  -- backup name.
  pub save_bytes_durable :
      (w : World)
      → IsPlain (w.disk path)
      → SaveOutcome path
          (w.disk path)
          (file bytes config_mode)
          (save_bytes o path bytes w).0
          (save_bytes o path bytes w).1
  save_bytes_durable w plain = (save_bytes_settles (w.disk path) plain).run w refl
