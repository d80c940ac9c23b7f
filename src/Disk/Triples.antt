-- ===== src/Disk/Triples.antt =====
-- Specifications of runs on the disk: what holds after a run, of its result and the world it
-- leaves, if something held before it.
use zoraxy_cert_warden.Base.{
  Bool, true, false, if◌then◌else◌, ◌≡◌, refl, sym, ◌∙◌, ap, ◌≢◌, ◌⊎◌, inl, inr, Option, none, some,
  ◌++◌, append_assoc, Str, codes, arith,
}
use zoraxy_cert_warden.Failure.{is_not_exist, Error, Result, ok, err}
use zoraxy_cert_warden.Disk.Calls.{create_temp}
use zoraxy_cert_warden.Disk.Effects.{create_temp_keeps, create_temp_frame, create_temp_ok}
use zoraxy_cert_warden.Disk.{Node, Env, World, P, M, return, attempt, tolerate, ◌>>=◌, ◌>>◌}

pub record Triple {A : Type 0} (Pre : World → Type 0) (m : P A) (Post : A → World → Type 0)
    : Type 0 where
  pub run : (w : World) → Pre w → Post (m w).0 (m w).1

-- What `x` names, if anything.
abbrev pub At : Str → Option Node → World → Type 0
At x v w = w.disk x ≡ v

-- What holds if the result is no error.
abbrev pub OnOk : {A : Type 0} → (A → World → Type 0) → Result A → World → Type 0
OnOk Q (ok a) w = Q a w
OnOk Q (err e) w = Unit

module _ {A B : Type 0} {Pre : World → Type 0} {Post : B → World → Type 0} where
  pub attempt_rule :
      {m : M A} {failed : Error → P B} {done : A → P B} (Mid : Result A → World → Type 0)
      → Triple Pre m Mid
      → ((e : Error) → Triple (Mid (err e)) (failed e) Post)
      → ((a : A) → Triple (Mid (ok a)) (done a) Post)
      → Triple Pre (attempt m failed done) Post
  unfolding attempt
  attempt_rule {m} {failed} {done} Mid tm tf td = record {
    run = λ w p. go (m w).0 (m w).1 (tm.run w p);
  }
    where
      go :
          (r : Result A) (w' : World)
          → Mid r w'
          → Post (attempt (λ _. (r, w')) failed done w').0 (attempt (λ _. (r, w')) failed done w').1
      go (ok a) w' h = (td a).run w' h
      go (err e) w' h = (tf e).run w' h

  pub bind_rule :
      {m : P A} {f : A → P B} (Mid : A → World → Type 0)
      → Triple Pre m Mid
      → ((a : A) → Triple (Mid a) (f a) Post)
      → Triple Pre (m >>= f) Post
  unfolding ◌>>=◌
  bind_rule {m} Mid tm tf = record { run = λ w p. (tf (m w).0).run (m w).1 (tm.run w p) }

  pub then_rule :
      {m : P A} {k : P B} (Mid : World → Type 0)
      → Triple Pre m (λ a. Mid)
      → Triple Mid k Post
      → Triple Pre (m >> k) Post
  unfolding ◌>>◌
  then_rule {m} Mid tm tk = record { run = λ w p. tk.run (m w).1 (tm.run w p) }

pub if_rule :
    {A : Type 0} {Pre : World → Type 0} {Post : A → World → Type 0} {m m' : P A} (b : Bool)
    → Triple Pre m Post
    → Triple Pre m' Post
    → Triple Pre (if b then m else m') Post
if_rule true t t' = t
if_rule false t t' = t'

-- What holds once a missing entry is tolerated.
pub tolerate_rule :
    {B : Type 0} {Pre : World → Type 0} {Post : B → World → Type 0} {m : M (Unit {0})}
    {failed : Error → P B} {done : P B} (Mid : Result (Unit {0}) → World → Type 0)
    (Next : World → Type 0)
    → Triple Pre m Mid
    → ((w : World) → Mid (ok tt) w → Next w)
    → ((e : Error) (w : World) → is_not_exist e ≡ true → Mid (err e) w → Next w)
    → Triple Next done Post
    → ((e : Error) → Triple (Mid (err e)) (failed e) Post)
    → Triple Pre (tolerate m failed done) Post
unfolding tolerate
tolerate_rule {B} {Post} {m} {failed} {done} Mid Next tm gone missing td tf =
    attempt_rule Mid tm (λ e. record { run = λ w h. split e w h (is_not_exist e) refl })
      (λ _. record { run = λ w h. td.run w (gone w h) })
  where
    split :
        (e : Error) (w : World)
        → Mid (err e) w
        → (b : Bool) → is_not_exist e ≡ b
        → let r : P B = if b then done else failed e in Post (r w).0 (r w).1
    split e w h true eq = td.run w (missing e w eq h)
    split e w h false eq = (tf e).run w h

-- The same where all that matters is another entry.
pub tolerate_keep_rule :
    {B : Type 0} {x : Str} {v : Option Node} {Post : B → World → Type 0} {m : M (Unit {0})}
    {failed : Error → P B} {done : P B}
    → Triple (At x v) m (λ r. At x v)
    → Triple (At x v) done Post
    → ((e : Error) → Triple (At x v) (failed e) Post)
    → Triple (At x v) (tolerate m failed done) Post
tolerate_keep_rule {x} {v} tm = tolerate_rule (λ r. At x v) (At x v) tm (λ w h. h) (λ e w n h. h)

module _ {A : Type 0} {m : P A} where
  -- A specification may ask more and promise less.
  pub weaken :
      {Pre Pre' : World → Type 0} {Post Post' : A → World → Type 0}
      → ((w : World) → Pre w → Pre' w)
      → Triple Pre' m Post'
      → ((a : A) (w : World) → Post' a w → Post a w)
      → Triple Pre m Post
  weaken before t after = record { run = λ w p. after _ _ (t.run w (before w p)) }

  -- Two specifications hold together.
  pub and_rule :
      {Pre Pre' : World → Type 0} {Post Post' : A → World → Type 0}
      → Triple Pre m Post
      → Triple Pre' m Post'
      → Triple (λ w. Pre w × Pre' w) m (λ a w. Post a w × Post' a w)
  and_rule t t' = record { run = λ w p. (t.run w p.0, t'.run w p.1) }

pub return_rule :
    {A : Type 0} {Pre : World → Type 0} {Post : A → World → Type 0} (a : A)
    → ((w : World) → Pre w → Post a w)
    → Triple Pre (return a) Post
return_rule a h = record { run = h }

-- The names that staged files and backups bear.
abbrev pub Temp : Str → Type 0
Temp q = (stem : Str) × (q ≡ stem ++ codes ".tmp")

pub Temp-of_parts : (a b c d : Str) {q : Str} → q ≡ a ++ (b ++ (c ++ (d ++ codes ".tmp"))) → Temp q
Temp-of_parts a b c d e = (a ++ (b ++ (c ++ d)), e ∙ simp append_assoc)

-- A new temporary file cannot get the name `x`: something bears it, or it is no such name.
abbrev pub Apart : Str → Option Node → Type 0
Apart x v = ((n : Node) × (v ≡ some n)) ⊎ ((q : Str) → Temp q → x ≢ q)

-- `x` is as it was, and a success returns a temporary name other than `x`.
abbrev pub Drawn : Str → Option Node → Result Str → World → Type 0
Drawn x v r w = At x v w × OnOk (λ q _. (x ≢ q) × Temp q) r w

-- A call that leaves `x` alone, and its two continuations.
pub keep_rule :
    {A B : Type 0} {x : Str} {v : Option Node} {Post : B → World → Type 0} {m : M A}
    {failed : Error → P B} {done : A → P B}
    → Triple (At x v) m (λ r. At x v)
    → ((e : Error) → Triple (At x v) (failed e) Post)
    → ((a : A) → Triple (At x v) (done a) Post)
    → Triple (At x v) (attempt m failed done) Post
keep_rule {x} {v} = attempt_rule (λ r. At x v)

module _ (o : Env) where
  create_temp-At_world :
      (dir prefix x : Str) (v : Option Node)
      → Apart x v
      → (w : World) → At x v w
      → Drawn x v
          (create_temp o dir prefix (codes ".tmp") w).0
          (create_temp o dir prefix (codes ".tmp") w).1
  create_temp-At_world dir prefix x v apart w h =
      go (create_temp o dir prefix (codes ".tmp") w).0 refl
    where
      kept : (create_temp o dir prefix (codes ".tmp") w).1.disk x ≡ v
      kept = elim apart [
        | inl (n, e) ↦ create_temp_keeps o dir prefix (codes ".tmp") x n w (h ∙ e) ∙ sym e
        | inr ne ↦
            create_temp_frame o dir prefix (codes ".tmp") x w
              (ne _ (Temp-of_parts dir (codes "/") prefix (o.token w.clock) refl))
            ∙ h
      ]

      differs : (q : Str) → w.disk q ≡ none → Temp q → x ≢ q
      differs q fresh t e = elim apart [
        | inl (n, f) ↦ absurd (ground (arith, ap w.disk e))
        | inr ne ↦ ne q t e
      ]

      go :
          (r : Result Str)
          → (create_temp o dir prefix (codes ".tmp") w).0 ≡ r
          → At x v (create_temp o dir prefix (codes ".tmp") w).1
            × OnOk (λ q _. (x ≢ q) × Temp q) r (create_temp o dir prefix (codes ".tmp") w).1
      go (err e) eq = (kept, tt)
      go (ok q) eq =
          let (fresh, holds, name) = create_temp_ok o dir prefix (codes ".tmp") w eq in
          let temp : Temp q = Temp-of_parts dir (codes "/") prefix (o.token w.clock) name in
          (kept, (differs q fresh temp, temp))

  -- A new temporary file bears a temporary name other than `x`, and leaves `x` alone.
  pub create_temp-At :
      (dir prefix x : Str) (v : Option Node)
      → Apart x v
      → Triple (At x v) (create_temp o dir prefix (codes ".tmp")) (Drawn x v)
  create_temp-At dir prefix x v apart = record {
    run = λ w h. create_temp-At_world dir prefix x v apart w h;
  }
