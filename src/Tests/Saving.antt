-- ===== src/Tests/Saving.antt =====
-- Runs of the saving of a configuration.
use zoraxy_cert_warden.Base.{◌≡◌, refl, ◌⊎◌, false, some, [], ◌∷◌, codes, str_eq, nat_eq}
use zoraxy_cert_warden.Text.{has_suffix, trim_space, to_lower}
use zoraxy_cert_warden.Text.FilePath.{base, clean, is_abs}
use zoraxy_cert_warden.Failure.{ok}
use zoraxy_cert_warden.Config.{default_config}
use zoraxy_cert_warden.Config.Normalize.{
  normalize, normalize_certificate, normalize_log_level, normalize_type, normalize_remote,
  normalize_interval,
}
use zoraxy_cert_warden.Config.Policy.{resolve_allowed_path, resolve_destination, resolve_source}
use zoraxy_cert_warden.Config.Validate.{is_valid_name}
use zoraxy_cert_warden.Config.Whole.{validate, validate_normalized}
use zoraxy_cert_warden.Disk.Calls.{stat, read_file, info_behind, behind, contents_behind}
use zoraxy_cert_warden.Disk.{file, attempt, ◌>>=◌}
use zoraxy_cert_warden.Store.{save_bytes, config_mode}
use zoraxy_cert_warden.Store.Rollback.{SaveOutcome}
use zoraxy_cert_warden.Store.Durable.{IsPlain}
use zoraxy_cert_warden.Store.Load.{
  one_config, load, read_config, check_default, accept_config, load_sound,
}
use zoraxy_cert_warden.Store.Promise.{save_bytes_durable}
use zoraxy_cert_warden.Tests.Fixtures.{env, world, host, policy, two_certificates}

plain : IsPlain (world.disk (codes "/d/a.pem"))
unfolding str_eq
plain = tt

-- The file "/d/a.pem" stands for the configuration; the calls 12 and 14 fail.
save_bytes_durable_example :
    SaveOutcome
      (codes "/d/a.pem")
      (world.disk (codes "/d/a.pem"))
      (file (codes "{}") config_mode)
      (save_bytes (env (12 ∷ 14 ∷ [])) (codes "/d/a.pem") (codes "{}") world).0
      (save_bytes (env (12 ∷ 14 ∷ [])) (codes "/d/a.pem") (codes "{}") world).1
unfolding has_suffix
save_bytes_durable_example =
    save_bytes_durable (env (12 ∷ 14 ∷ [])) (codes "/d/a.pem") (codes "{}") refl refl world plain

load_sound_example :
    (validate host false (some policy) (some two_certificates) ≡ ok tt)
    × ((normalize two_certificates ≡ two_certificates) ⊎ (two_certificates ≡ default_config))
unfolding load stat read_file read_config check_default accept_config attempt ◌>>=◌ validate
    normalize normalize_certificate validate_normalized is_valid_name is_abs clean resolve_source
    resolve_allowed_path trim_space resolve_destination base str_eq info_behind behind
    contents_behind normalize_log_level to_lower normalize_type normalize_remote normalize_interval
load_sound_example =
    load_sound (env []) host (some policy) (λ bytes. one_config two_certificates) (codes "/d/a.pem")
      world two_certificates refl
