-- ===== src/Tests/Replacement.antt =====
-- Runs of the replacement of a pair of files.
use zoraxy_cert_warden.Base.{◌++◌, ◌≡◌, refl, ◌≢◌, false, none, [], ◌∷◌, Str, codes, str_eq, nat_eq}
use zoraxy_cert_warden.Text.{has_suffix}
use zoraxy_cert_warden.Text.FilePath.{join}
use zoraxy_cert_warden.Text.Suffix.{differs_of_suffix}
use zoraxy_cert_warden.Disk.{file}
use zoraxy_cert_warden.Disk.Effects.{Holds}
use zoraxy_cert_warden.Failure.{err, path_error, io}
use zoraxy_cert_warden.Disk.Triples.{OnOk, Temp, At}
use zoraxy_cert_warden.Sync.Staging.{write_temp_file}
use zoraxy_cert_warden.Sync.Backup.{entry_at, prepare_backup, restore_entry, absent}
use zoraxy_cert_warden.Sync.Install.{differs_of_test}
use zoraxy_cert_warden.Sync.Pair.{PairOutcome}
use zoraxy_cert_warden.Sync.Promises.{
  stage_and_install_safe, Reached, restore_entry-prepare_backup, restore_entry-prepare_backup_loses,
  write_temp_file_stages,
}
use zoraxy_cert_warden.Sync.Replace.{cert_path, key_path, stage_and_install}
use zoraxy_cert_warden.Tests.Fixtures.{env, blind, crypto, job, world, cert_pem, old_cert}

cert_path_named : (q : Str) → Temp q → q ≢ codes "/d/a.pem"
unfolding has_suffix
cert_path_named q (stem, e) = differs_of_suffix (codes ".tmp") (codes "/d/a.pem") no_suffix q stem e
  where
    no_suffix : has_suffix (codes "/d/a.pem") (codes ".tmp") ≡ false
    no_suffix = refl

key_path_named : (q : Str) → Temp q → q ≢ codes "/d/a.key"
unfolding has_suffix
key_path_named q (stem, e) = differs_of_suffix (codes ".tmp") (codes "/d/a.key") no_suffix q stem e
  where
    no_suffix : has_suffix (codes "/d/a.key") (codes ".tmp") ≡ false
    no_suffix = refl

cert_path_computed : cert_path (codes "/d") (codes "a") ≡ codes "/d/a.pem"
unfolding join
cert_path_computed = refl

key_path_computed : key_path (codes "/d") (codes "a") ≡ codes "/d/a.key"
unfolding join
key_path_computed = refl

paths_differ : cert_path (codes "/d") (codes "a") ≢ key_path (codes "/d") (codes "a")
unfolding join
paths_differ = differs_of_test _ _ refl

-- The calls 9 and 20 fail.
stage_and_install_safe_example :
    PairOutcome job
      (world.disk (cert_path (codes "/d") (codes "a")))
      (world.disk (key_path (codes "/d") (codes "a")))
      (stage_and_install (env (9 ∷ 20 ∷ [])) crypto job world).0
      (stage_and_install (env (9 ∷ 20 ∷ [])) crypto job world).1
unfolding join
stage_and_install_safe_example =
    stage_and_install_safe (env (9 ∷ 20 ∷ [])) crypto job world (λ n. refl) paths_differ
      cert_path_named key_path_named

restore_entry-prepare_backup_example :
    let prepared =
      prepare_backup
        (env (3 ∷ []))
        (entry_at (codes "/d/a.pem"))
        (codes "/d")
        (codes ".a-cert-backup-")
        world in
    let after = restore_entry (env (3 ∷ [])) prepared.0.1 prepared.1 in
    Reached (codes "/d/a.pem") (world.disk (codes "/d/a.pem")) after.0 after.1
restore_entry-prepare_backup_example =
    restore_entry-prepare_backup (env (3 ∷ [])) (codes "/d/a.pem") (codes "/d")
      (codes ".a-cert-backup-") world (λ n. refl) cert_path_named

restore_entry-prepare_backup_loses_example :
    let prepared =
      prepare_backup blind
        (entry_at (codes "/d/a.pem"))
        (codes "/d")
        (codes ".a-cert-backup-")
        world in
    let after = restore_entry blind prepared.0.1 prepared.1 in
    (prepared.0.0
      ≡ err (path_error (codes "lstat " ++ codes "/d/a.pem") (io (codes "input/output error"))))
    × Holds (codes "/d/a.pem") old_cert prepared.1
    × At (codes "/d/a.pem") none after.1
    × (after.0 ≡ absent)
unfolding str_eq nat_eq
restore_entry-prepare_backup_loses_example =
    restore_entry-prepare_backup_loses blind (codes "/d/a.pem") (codes "/d")
      (codes ".a-cert-backup-") (codes "old certificate") 420 (codes "input/output error") world
      refl refl refl

write_temp_file_stages_example :
    let staged = write_temp_file (env []) (codes "/d") (codes ".a-cert-sync-") cert_pem 420 world in
    Holds (codes "/d/a.pem") old_cert staged.1
    × OnOk (λ q w'. Holds q (file cert_pem 420) w' × Temp q) staged.0 staged.1
    × OnOk (λ q w'. (codes "/d/a.pem" ≢ q) × Temp q) staged.0 staged.1
unfolding str_eq nat_eq
write_temp_file_stages_example =
    write_temp_file_stages (env []) (codes "/d") (codes ".a-cert-sync-") cert_pem 420
      (codes "/d/a.pem") old_cert world refl
