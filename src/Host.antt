-- ===== src/Host.antt =====
-- What the program asks of the operating system and of the URL parser, by reading only.
use zoraxy_cert_warden.Base.{ℕ, Bool, Option, Str}
use zoraxy_cert_warden.Failure.{Result}

-- The kind of a directory entry, by the type bits of `os.FileMode`.
pub data FileKind : Type 0 where
  regular directory symlink special : FileKind

-- `os.FileInfo`: the type bits and the permission bits of the mode.
pub record FileInfo : Type 0 where
  pub kind : FileKind
  pub perm : ℕ

-- `url.URL`, by the fields that the program reads.
pub record Url : Type 0 where
  pub scheme : Str
  pub host : Str
  pub has_user : Bool
  pub raw_query : Str
  pub force_query : Bool
  pub opaque : Str
  pub path : Str

pub record Host : Type 0 where
  -- `os.Lstat` and `os.Stat`
  pub lstat : Str → Result FileInfo
  pub stat : Str → Result FileInfo
  -- `filepath.EvalSymlinks`
  pub eval_symlinks : Str → Result Str
  -- `url.Parse`; `none` is an error.
  pub parse_url : Str → Option Url
