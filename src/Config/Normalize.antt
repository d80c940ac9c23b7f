-- ===== src/Config/Normalize.antt =====
-- `Normalize` of internal/config/config.go: user-provided values are trimmed, defaults applied.
use zoraxy_cert_warden.Base.{
  zero, ◌≡◌, refl, Option, none, some, List, [], ◌∷◌, map, Str, codes, ◌==◌, str_eq, if◌then◌else◌,
  arith,
}
use zoraxy_cert_warden.Base.Int.{ℤ, pos}
use zoraxy_cert_warden.Text.{trim_space, to_lower}
use zoraxy_cert_warden.Text.Laws.{trim_space_idem, to_lower_idem, trim_space-to_lower}
use zoraxy_cert_warden.Config.{
  SourceType, unset, source_type_local, CertWardenSource, CertificateConfig, Config, is_cert_warden,
  default_poll_interval, default_remote_poll_interval,
}

unfoldable pub normalize_type : SourceType → SourceType
normalize_type unset = source_type_local
normalize_type t = t

unfoldable pub normalize_remote : Option CertWardenSource → Option CertWardenSource
normalize_remote none = none
normalize_remote (some r) = some (record {
  server_url = trim_space r.server_url;
  certificate_name = trim_space r.certificate_name;
})

-- The default interval for a value of 0, by the normalised source type.
unfoldable pub normalize_interval : SourceType → ℤ → ℤ
normalize_interval t (pos zero) =
    if is_cert_warden t then pos default_remote_poll_interval else pos default_poll_interval
normalize_interval t n = n

-- `(*CertificateConfig).Normalize`
unfoldable pub normalize_certificate : CertificateConfig → CertificateConfig
normalize_certificate c = record {
  name = trim_space c.name;
  enabled = c.enabled;
  source = record {
    source_type = normalize_type c.source.source_type;
    certificate = trim_space c.source.certificate;
    private_key = trim_space c.source.private_key;
    cert_warden = normalize_remote c.source.cert_warden;
  };
  destination = record {
    target_directory = trim_space c.destination.target_directory;
    target_name = trim_space c.destination.target_name;
  };
  sync = record {
    auto_sync = c.sync.auto_sync;
    filesystem_watch = c.sync.filesystem_watch;
    poll_interval_seconds =
        normalize_interval (normalize_type c.source.source_type) c.sync.poll_interval_seconds;
  };
  fallback = c.fallback;
}

unfoldable pub normalize_log_level : Str → Str
unfolding str_eq
normalize_log_level s =
    let level : Str = to_lower (trim_space s) in if level == [] then codes "info" else level

-- `(*Config).Normalize`
unfoldable pub normalize : Config → Config
normalize cfg = record {
  certificates = map normalize_certificate cfg.certificates;
  log_level = normalize_log_level cfg.log_level;
}

normalize_type_idem : (t : SourceType) → normalize_type (normalize_type t) ≡ normalize_type t
unfolding normalize_type
normalize_type_idem t = ground arith

normalize_remote_idem :
    (r : Option CertWardenSource) → normalize_remote (normalize_remote r) ≡ normalize_remote r
unfolding normalize_remote
normalize_remote_idem none = refl
normalize_remote_idem (some r) = rw (trim_space_idem, trim_space_idem)

normalize_interval_idem :
    (t : SourceType) (n : ℤ)
    → normalize_interval t (normalize_interval t n) ≡ normalize_interval t n
unfolding normalize_interval
normalize_interval_idem t n = ground arith

normalize_certificate_idem :
    (c : CertificateConfig)
    → normalize_certificate (normalize_certificate c) ≡ normalize_certificate c
unfolding normalize_certificate
normalize_certificate_idem c =
    simp (trim_space_idem, normalize_type_idem, normalize_remote_idem, normalize_interval_idem)

normalize_log_level_idem :
    (s : Str) → normalize_log_level (normalize_log_level s) ≡ normalize_log_level s
unfolding normalize_log_level
normalize_log_level_idem s = ground (
  arith,
  trim_space-to_lower (trim_space s),
  to_lower_idem (trim_space s),
  trim_space_idem s,
  info_kept,
)
  where
    info_kept : to_lower (trim_space (codes "info")) ≡ codes "info"
    info_kept = unfold to_lower trim_space in refl

map_idem {ℓ} :
    {A : Type ℓ} (f : A → A) (h : (a : A) → f (f a) ≡ f a) (l : List A) → map f (map f l) ≡ map f l
map_idem f h [] = refl
map_idem f h (a ∷ l) = rw (h a, map_idem f h l)

-- Normalising a normalised configuration changes nothing.
pub normalize_idem : (cfg : Config) → normalize (normalize cfg) ≡ normalize cfg
unfolding normalize
normalize_idem cfg = rw (
  map_idem normalize_certificate normalize_certificate_idem cfg.certificates,
  normalize_log_level_idem,
)
