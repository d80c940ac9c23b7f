-- ===== src/Disk/Effects.antt =====
-- What each call of the file system changes, and what it leaves alone, whatever fails.
use zoraxy_cert_warden.Base.{
  ℕ, ◌≡◌, ◌≢◌, true, none, some, List, [], ◌++◌, Str, codes, str_eq, arith,
}
use zoraxy_cert_warden.Failure.{Error, ok, err, is_not_exist}
use zoraxy_cert_warden.Disk.{Node, file, Env, World}
use zoraxy_cert_warden.Disk.Calls.{
  lstat, read_file, mkdir_all, create_temp, write, chmod, sync, close, open_directory, remove,
  rename, read_dir, contents_behind,
}

-- `x` names the entry `n`.
abbrev pub Holds : Str → Node → World → Type 0
Holds x n w = w.disk x ≡ some n

module _ (o : Env) where
  pub lstat_same : (p : Str) (w : World) → (lstat o p w).1.disk ≡ w.disk
  unfolding lstat
  lstat_same p w = ground arith

  pub read_file_same : (p : Str) (w : World) → (read_file o p w).1.disk ≡ w.disk
  unfolding read_file contents_behind
  read_file_same p w = ground arith

  pub sync_same : (p : Str) (w : World) → (sync o p w).1.disk ≡ w.disk
  unfolding sync
  sync_same p w = ground arith

  pub close_same : (p : Str) (w : World) → (close o p w).1.disk ≡ w.disk
  unfolding close
  close_same p w = ground arith

  pub open_directory_same : (p : Str) (w : World) → (open_directory o p w).1.disk ≡ w.disk
  unfolding open_directory
  open_directory_same p w = ground arith

  pub read_dir_same : (p : Str) (w : World) → (read_dir o p w).1.disk ≡ w.disk
  unfolding read_dir
  read_dir_same p w = ground arith

  pub remove_frame : (p x : Str) (w : World) → x ≢ p → (remove o p w).1.disk x ≡ w.disk x
  unfolding remove
  remove_frame p x w ne = ground arith

  pub remove_err :
      (p : Str) (w : World) {e : Error} → (remove o p w).0 ≡ err e → (remove o p w).1.disk ≡ w.disk
  unfolding remove
  remove_err p w r = ground arith

  pub remove_ok :
      (p : Str) (w : World) {u : Unit {0}}
      → (remove o p w).0 ≡ ok u
      → (remove o p w).1.disk p ≡ none
  unfolding remove
  remove_ok p w r = ground arith

  pub remove_missing :
      (p : Str) (w : World) {e : Error}
      → (remove o p w).0 ≡ err e
      → is_not_exist e ≡ true
      → (remove o p w).1.disk p ≡ none
  unfolding remove is_not_exist
  remove_missing p w r m = ground arith

  pub mkdir_all_frame : (p x : Str) (w : World) → x ≢ p → (mkdir_all o p w).1.disk x ≡ w.disk x
  unfolding mkdir_all
  mkdir_all_frame p x w ne = ground arith

  pub mkdir_all_keeps :
      (p x : Str) (n : Node) (w : World) → Holds x n w → Holds x n (mkdir_all o p w).1
  unfolding mkdir_all
  mkdir_all_keeps p x n w h = ground arith

  pub write_frame :
      (p x : Str) (bytes : List ℕ) (w : World) → x ≢ p → (write o p bytes w).1.disk x ≡ w.disk x
  unfolding write
  write_frame p x bytes w ne = ground arith

  pub write_ok :
      (p : Str) (bytes old : List ℕ) (mode : ℕ) (w : World)
      → (write o p bytes w).0 ≡ ok tt
      → Holds p (file old mode) w
      → Holds p (file (old ++ bytes) mode) (write o p bytes w).1
  unfolding write
  write_ok p bytes old mode w r h = ground arith

  pub chmod_frame :
      (p x : Str) (mode : ℕ) (w : World) → x ≢ p → (chmod o p mode w).1.disk x ≡ w.disk x
  unfolding chmod
  chmod_frame p x mode w ne = ground arith

  pub chmod_ok :
      (p : Str) (old : List ℕ) (m mode : ℕ) (w : World)
      → (chmod o p mode w).0 ≡ ok tt
      → Holds p (file old m) w
      → Holds p (file old mode) (chmod o p mode w).1
  unfolding chmod
  chmod_ok p old m mode w r h = ground arith

  pub create_temp_keeps :
      (dir prefix suffix x : Str) (n : Node) (w : World)
      → Holds x n w
      → Holds x n (create_temp o dir prefix suffix w).1
  unfolding create_temp
  create_temp_keeps dir prefix suffix x n w h = ground arith

  pub create_temp_ok :
      (dir prefix suffix : Str) (w : World) {q : Str}
      → (create_temp o dir prefix suffix w).0 ≡ ok q
      → (w.disk q ≡ none)
        × Holds q (file [] 384) (create_temp o dir prefix suffix w).1
        × (q ≡ dir ++ (codes "/" ++ (prefix ++ (o.token w.clock ++ suffix))))
  unfolding create_temp
  create_temp_ok dir prefix suffix w r = ground arith

  pub create_temp_frame :
      (dir prefix suffix x : Str) (w : World)
      → x ≢ dir ++ (codes "/" ++ (prefix ++ (o.token w.clock ++ suffix)))
      → (create_temp o dir prefix suffix w).1.disk x ≡ w.disk x
  unfolding create_temp
  create_temp_frame dir prefix suffix x w ne = ground arith

  pub rename_frame :
      (p q x : Str) (w : World) → x ≢ p → x ≢ q → (rename o p q w).1.disk x ≡ w.disk x
  unfolding rename
  rename_frame p q x w ne nq = ground arith

  pub rename_ok :
      (p q : Str) (n : Node) (w : World)
      → (rename o p q w).0 ≡ ok tt
      → Holds p n w
      → Holds q n (rename o p q w).1
  unfolding rename
  rename_ok p q n w r h = ground arith

  pub rename_err :
      (p q : Str) (w : World) {e : Error}
      → (rename o p q w).0 ≡ err e
      → (rename o p q w).1.disk ≡ w.disk
  unfolding rename
  rename_err p q w r = ground arith
