-- ===== src/Disk/Frames.antt =====
-- Calls leave alone what they do not name, as specifications.
use zoraxy_cert_warden.Base.{ℕ, ◌∙◌, ap, ◌≢◌, Option, List, Str}
use zoraxy_cert_warden.Disk.{Node, Env}
use zoraxy_cert_warden.Disk.Calls.{
  lstat, read_file, mkdir_all, write, chmod, sync, close, open_directory, remove, rename, read_dir,
}
use zoraxy_cert_warden.Disk.Effects.{
  lstat_same, read_file_same, sync_same, close_same, open_directory_same, read_dir_same,
  remove_frame, mkdir_all_frame, write_frame, chmod_frame, rename_frame,
}
use zoraxy_cert_warden.Disk.Triples.{Triple, At}

module _ (o : Env) (x : Str) (v : Option Node) where
  pub lstat-At : (p : Str) → Triple (At x v) (lstat o p) (λ r. At x v)
  lstat-At p = record { run = λ w h. ap (λ d. d x) (lstat_same o p w) ∙ h }

  pub read_file-At : (p : Str) → Triple (At x v) (read_file o p) (λ r. At x v)
  read_file-At p = record { run = λ w h. ap (λ d. d x) (read_file_same o p w) ∙ h }

  pub sync-At : (p : Str) → Triple (At x v) (sync o p) (λ r. At x v)
  sync-At p = record { run = λ w h. ap (λ d. d x) (sync_same o p w) ∙ h }

  pub close-At : (p : Str) → Triple (At x v) (close o p) (λ r. At x v)
  close-At p = record { run = λ w h. ap (λ d. d x) (close_same o p w) ∙ h }

  pub open_directory-At : (p : Str) → Triple (At x v) (open_directory o p) (λ r. At x v)
  open_directory-At p = record { run = λ w h. ap (λ d. d x) (open_directory_same o p w) ∙ h }

  pub read_dir-At : (p : Str) → Triple (At x v) (read_dir o p) (λ r. At x v)
  read_dir-At p = record { run = λ w h. ap (λ d. d x) (read_dir_same o p w) ∙ h }

  pub remove-At : (p : Str) → x ≢ p → Triple (At x v) (remove o p) (λ r. At x v)
  remove-At p ne = record { run = λ w h. remove_frame o p x w ne ∙ h }

  pub mkdir_all-At : (p : Str) → x ≢ p → Triple (At x v) (mkdir_all o p) (λ r. At x v)
  mkdir_all-At p ne = record { run = λ w h. mkdir_all_frame o p x w ne ∙ h }

  pub write-At :
      (p : Str) (bytes : List ℕ) → x ≢ p → Triple (At x v) (write o p bytes) (λ r. At x v)
  write-At p bytes ne = record { run = λ w h. write_frame o p x bytes w ne ∙ h }

  pub chmod-At : (p : Str) (mode : ℕ) → x ≢ p → Triple (At x v) (chmod o p mode) (λ r. At x v)
  chmod-At p mode ne = record { run = λ w h. chmod_frame o p x mode w ne ∙ h }

  pub rename-At : (p q : Str) → x ≢ p → x ≢ q → Triple (At x v) (rename o p q) (λ r. At x v)
  rename-At p q np nq = record { run = λ w h. rename_frame o p q x w np nq ∙ h }
