-- ===== src/Store/Load.antt =====
-- `Load` of internal/config/config.go. The strict JSON decoder is a parameter.
use zoraxy_cert_warden.Base.{
  ◌≡◌, refl, sym, subst, ◌⊎◌, inl, inr, Bool, true, false, Option, some, Str, if◌then◌else◌,
}
use zoraxy_cert_warden.Failure.{Error, new, wrap, is_not_exist, Result, ok, err}
use zoraxy_cert_warden.Host.{Host, FileInfo}
use zoraxy_cert_warden.Config.{Config, default_config}
use zoraxy_cert_warden.Config.Normalize.{normalize, normalize_idem}
use zoraxy_cert_warden.Config.Policy.{PathPolicy}
use zoraxy_cert_warden.Config.Whole.{validate}
use zoraxy_cert_warden.CertUtil.{Bytes}
use zoraxy_cert_warden.Disk.{Env, World, M, return, fail, attempt, ◌>>=◌}
use zoraxy_cert_warden.Disk.Calls.{stat, read_file}

-- What the decoder makes of the file: one configuration, one and a further value, or an error.
pub data DecodedConfig : Type 0 where
  one_config : Config → DecodedConfig
  trailing_value : DecodedConfig
  no_config : Error → DecodedConfig

ok_injective : {a b : Config} → ok a ≡ ok b → a ≡ b
ok_injective e = cc

module _ (o : Env) (h : Host) (policy : Option PathPolicy) (decode : Bytes → DecodedConfig) where
  unfoldable pub check_default : Result Config
  unfolding default_config
  check_default = elim (validate h false policy (some default_config)) [
    | err e ↦ err (wrap "default config is invalid" e)
    | ok _ ↦ ok default_config
  ]

  unfoldable pub accept_config : DecodedConfig → Result Config
  accept_config (no_config e) = err (wrap "failed to parse config" e)
  accept_config trailing_value = err (new "failed to parse config: trailing JSON value")
  accept_config (one_config cfg) = elim (validate h false policy (some (normalize cfg))) [
    | err e ↦ err (wrap "config validation failed" e)
    | ok _ ↦ ok (normalize cfg)
  ]

  unfoldable pub read_config : Str → M Config
  read_config path =
      attempt (read_file o path) (λ e. fail (wrap "failed to read config" e))
        (λ bytes. return (accept_config (decode bytes)))

  abbrev is_missing : Result FileInfo → Bool
  is_missing (ok info) = false
  is_missing (err e) = is_not_exist e

  -- `Load`; an error of `os.Stat` other than a missing file is left to the reading.
  unfoldable pub load : Str → M Config
  load path = do r ← stat o path; if is_missing r then return check_default else read_config path

  check_default_sound :
      (cfg : Config)
      → check_default ≡ ok cfg
      → (validate h false policy (some cfg) ≡ ok tt) × (cfg ≡ default_config)
  unfolding check_default
  check_default_sound cfg e = go (validate h false policy (some default_config)) refl e
    where
      go :
          (r : Result (Unit {0}))
          → validate h false policy (some default_config) ≡ r
          → let s : Result Config = elim r [
            | err f ↦ err (wrap "default config is invalid" f)
            | ok _ ↦ ok default_config
          ] in
            s ≡ ok cfg → (validate h false policy (some cfg) ≡ ok tt) × (cfg ≡ default_config)
      go (err f) v s = cc
      go (ok tt) v s =
          let same = ok_injective s in
          (subst (λ c. validate h false policy (some c) ≡ ok tt) same v, sym same)

  accept_config_sound :
      (d : DecodedConfig) (cfg : Config)
      → accept_config d ≡ ok cfg
      → (validate h false policy (some cfg) ≡ ok tt) × (normalize cfg ≡ cfg)
  unfolding accept_config
  accept_config_sound (no_config f) cfg e = cc
  accept_config_sound trailing_value cfg e = cc
  accept_config_sound (one_config c) cfg e =
      go (validate h false policy (some (normalize c))) refl e
    where
      go :
          (r : Result (Unit {0}))
          → validate h false policy (some (normalize c)) ≡ r
          → let s : Result Config = elim r [
            | err f ↦ err (wrap "config validation failed" f)
            | ok _ ↦ ok (normalize c)
          ] in
            s ≡ ok cfg → (validate h false policy (some cfg) ≡ ok tt) × (normalize cfg ≡ cfg)
      go (err f) v s = cc
      go (ok tt) v s =
          let same = ok_injective s in
          (
            subst (λ c. validate h false policy (some c) ≡ ok tt) same v,
            subst (λ c. normalize c ≡ c) same (normalize_idem c),
          )

  -- A configuration that `Load` returns, whatever the file holds and whatever calls fail, passes
  -- the validation under the same policy, and is normalised unless it is the default one.
  pub load_sound :
      (path : Str) (w : World) (cfg : Config)
      → (load path w).0 ≡ ok cfg
      → (validate h false policy (some cfg) ≡ ok tt)
        × ((normalize cfg ≡ cfg) ⊎ (cfg ≡ default_config))
  unfolding load read_config attempt ◌>>=◌
  load_sound path w cfg e = go (is_missing (stat o path w).0) e
    where
      read :
          (r : Result Bytes) (w' : World)
          → (elim r as (λ r. Result Config × World) [
            | err f ↦ (err (wrap "failed to read config" f), w')
            | ok bytes ↦ (accept_config (decode bytes), w')
          ]).0
            ≡ ok cfg
          → (validate h false policy (some cfg) ≡ ok tt)
            × ((normalize cfg ≡ cfg) ⊎ (cfg ≡ default_config))
      read (err f) w' s = cc
      read (ok bytes) w' s = let (v, n) = accept_config_sound (decode bytes) cfg s in (v, inl n)

      go :
          (b : Bool)
          → let m : M Config = if b then return check_default else read_config path in
            (m (stat o path w).1).0 ≡ ok cfg
            → (validate h false policy (some cfg) ≡ ok tt)
              × ((normalize cfg ≡ cfg) ⊎ (cfg ≡ default_config))
      go true s = let (v, d) = check_default_sound cfg s in (v, inr d)
      go false s =
          read (read_file o path (stat o path w).1).0 (read_file o path (stat o path w).1).1 s
