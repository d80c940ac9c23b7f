-- ===== src/Sync/Written.antt =====
-- What `writeTempFileFS` of internal/sync/sync.go leaves: the whole file under a new temporary
-- name, and everything else as it was.
use zoraxy_cert_warden.Base.{ℕ, ◌≡◌, refl, ◌≢◌, [], Option, Str, codes}
use zoraxy_cert_warden.Failure.{Error, Result, ok, err}
use zoraxy_cert_warden.CertUtil.{Bytes}
use zoraxy_cert_warden.Disk.{Node, file, Env, World, ◌>>◌}
use zoraxy_cert_warden.Disk.Calls.{create_temp, write, chmod}
use zoraxy_cert_warden.Disk.Effects.{Holds, create_temp_ok, write_ok, chmod_ok}
use zoraxy_cert_warden.Disk.Triples.{
  Triple, OnOk, attempt_rule, then_rule, return_rule, keep_rule, Temp, Temp-of_parts, Drawn, At,
  Apart, create_temp-At,
}
use zoraxy_cert_warden.Disk.Frames.{write-At, chmod-At, sync-At, close-At, remove-At}
use zoraxy_cert_warden.Sync.Staging.{write_temp_file, fill, abandon}

module _ (o : Env) (x : Str) (v : Option Node) where
  abandon-At : (path : Str) (e : Error) → x ≢ path → Triple (At x v) (abandon o path e) (Drawn x v)
  unfolding abandon
  abandon-At path e ne =
      then_rule (At x v) (close-At o x v path)
        (then_rule (At x v) (remove-At o x v path ne) (return_rule _ (λ w h. (h, tt))))

  fill-At :
      (path : Str) (bytes : Bytes) (mode : ℕ)
      → x ≢ path
      → Temp path
      → Triple (At x v) (fill o bytes mode path) (Drawn x v)
  unfolding fill
  fill-At path bytes mode ne t =
      keep_rule (write-At o x v path bytes ne) (λ e. abandon-At path e ne)
        λ _.
          keep_rule (chmod-At o x v path mode ne) (λ e. abandon-At path e ne)
            λ _.
              keep_rule (sync-At o x v path) (λ e. abandon-At path e ne)
                λ _.
                  keep_rule (close-At o x v path) (λ e. abandon-At path e ne)
                    λ _.
                      then_rule (At x v) (close-At o x v path) (return_rule _ (λ w h. (h, (ne, t))))

  -- What another name holds stays, and a success returns a temporary name other than it.
  pub write_temp_file-At :
      (dir prefix : Str) (bytes : Bytes) (mode : ℕ)
      → Apart x v
      → Triple (At x v) (write_temp_file o dir prefix bytes mode) (Drawn x v)
  unfolding write_temp_file
  write_temp_file-At dir prefix bytes mode apart =
      attempt_rule (Drawn x v) (create_temp-At o dir prefix x v apart)
        (λ e. return_rule _ (λ w h. h))
        (λ path. record { run = λ w h. (fill-At path bytes mode h.1.0 h.1.1).run w h.0 })

module _ (o : Env) (dir prefix : Str) (bytes : Bytes) (mode : ℕ) where
  -- The file after a success: its contents and its mode.
  abbrev pub Written : Bytes → ℕ → Result Str → World → Type 0
  Written b m = OnOk (λ q w. Holds q (file b m) w × Temp q)

  created : Triple (λ w. Unit {0}) (create_temp o dir prefix (codes ".tmp")) (Written [] 384)
  created = record { run = λ w _. go w (create_temp o dir prefix (codes ".tmp") w).0 refl }
    where
      go :
          (w : World) (r : Result Str)
          → (create_temp o dir prefix (codes ".tmp") w).0 ≡ r
          → Written [] 384 r (create_temp o dir prefix (codes ".tmp") w).1
      go w (err e) eq = tt
      go w (ok q) eq =
          let (fresh, holds, name) = create_temp_ok o dir prefix (codes ".tmp") w eq in
          (holds, Temp-of_parts dir (codes "/") prefix (o.token w.clock) name)

  filled :
      (path : Str)
      → Triple
          (Holds path (file [] 384))
          (write o path bytes)
          (OnOk (λ _. Holds path (file bytes 384)))
  filled path = record { run = λ w h. go w h (write o path bytes w).0 refl }
    where
      go :
          (w : World)
          → Holds path (file [] 384) w
          → (r : Result (Unit {0})) → (write o path bytes w).0 ≡ r
          → OnOk (λ _. Holds path (file bytes 384)) r (write o path bytes w).1
      go w h (err e) eq = tt
      go w h (ok u) eq = write_ok o path bytes [] 384 w eq h

  secured :
      (path : Str)
      → Triple
          (Holds path (file bytes 384))
          (chmod o path mode)
          (OnOk (λ _. Holds path (file bytes mode)))
  secured path = record { run = λ w h. go w h (chmod o path mode w).0 refl }
    where
      go :
          (w : World)
          → Holds path (file bytes 384) w
          → (r : Result (Unit {0})) → (chmod o path mode w).0 ≡ r
          → OnOk (λ _. Holds path (file bytes mode)) r (chmod o path mode w).1
      go w h (err e) eq = tt
      go w h (ok u) eq = chmod_ok o path bytes 384 mode w eq h

  abandoned :
      {Pre : World → Type 0} (path : Str) (e : Error)
      → Triple Pre (abandon o path e) (Written bytes mode)
  unfolding abandon ◌>>◌
  abandoned path e = record { run = λ w h. tt }

  -- A success leaves the whole contents, with the mode asked for, under the name returned.
  pub write_temp_file_ok :
      Triple (λ w. Unit {0}) (write_temp_file o dir prefix bytes mode) (Written bytes mode)
  unfolding write_temp_file fill
  write_temp_file_ok =
      attempt_rule (Written [] 384) created (λ e. return_rule _ (λ w h. tt))
        λ path. record { run = λ w h. (complete path h.1).run w h.0 }
    where
      complete :
          (path : Str)
          → Temp path
          → Triple (Holds path (file [] 384)) (fill o bytes mode path) (Written bytes mode)
      complete path t =
          attempt_rule (OnOk (λ _. Holds path (file bytes 384))) (filled path) (abandoned path) λ _.
            attempt_rule (OnOk (λ _. Holds path (file bytes mode))) (secured path) (abandoned path)
              λ _. keep_rule (sync-At o path _ path) (abandoned path) λ _.
                keep_rule (close-At o path _ path) (abandoned path) λ _.
                  then_rule (Holds path (file bytes mode)) (close-At o path _ path)
                    (return_rule _ (λ w h. (h, t)))
