-- ===== src/Tests/Paths.antt =====
-- Runs of the path policy.
use zoraxy_cert_warden.Base.{
  ◌≡◌, refl, ◌↔◌, true, false, List, [], ◌∷◌, ◌++◌, Str, codes, nat_eq, str_eq,
}
use zoraxy_cert_warden.Text.{trim_space}
use zoraxy_cert_warden.Text.FilePath.{is_abs, clean, parts_of}
use zoraxy_cert_warden.Config.Policy.{is_safe_path, path_within_root, resolve_allowed_path}
use zoraxy_cert_warden.Config.Allowed.{Allowed, resolve_allowed_path-Allowed}
use zoraxy_cert_warden.Config.Contained.{path_within_root_iff}
use zoraxy_cert_warden.Tests.Fixtures.{host}

resolve_allowed_path-Allowed_example :
    Allowed host (codes "/s/a.pem") (codes "/t" ∷ codes "/s" ∷ []) (codes "/s/a.pem")
unfolding resolve_allowed_path is_safe_path is_abs clean trim_space str_eq
resolve_allowed_path-Allowed_example =
    resolve_allowed_path-Allowed host (codes "/s/a.pem") (codes "/t" ∷ codes "/s" ∷ [])
      (codes "source") (codes "/s/a.pem") refl

path_within_root_iff_example :
    (path_within_root (codes "/s/a.pem") (codes "/s") ≡ true)
    ↔ ((rest : List Str) × (parts_of (codes "/s/a.pem") ≡ parts_of (codes "/s") ++ rest))
unfolding is_abs nat_eq
path_within_root_iff_example = path_within_root_iff (codes "/s/a.pem") (codes "/s") refl refl

-- A path next to a root is not in it.
outside : path_within_root (codes "/sx/a.pem") (codes "/s") ≡ false
unfolding path_within_root
outside = refl
