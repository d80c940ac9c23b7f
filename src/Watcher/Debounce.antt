-- ===== src/Watcher/Debounce.antt =====
-- internal/watcher/watcher.go: the timers that `time.AfterFunc` has made, newest first. Each has
-- its number, the generation in which it was made, and how far its function has come.
use zoraxy_cert_warden.Base.{
  ℕ, ◌+◌, ◌≤◌, ◌<◌, ◌≡◌, refl, Bool, true, false, Option, none, some, List, [], ◌∷◌, ◌==◌, nat_eq,
  if◌then◌else◌, if-holds, arith, ◌⊎◌, inl, inr, sym, ◌∙◌,
}

-- Not yet fired; its function waits for the lock; it has let go of the lock and calls back next; the
-- callback runs; the deferred `Done` is left; and the function has returned, or the timer was
-- stopped.
pub data Phase : Type 0 where
  armed fired accepted calling leaving finished : Phase

abbrev pub Timers : Type 0
Timers = List (ℕ × (ℕ × Phase))

unfoldable pub phase_of : Timers → ℕ → Option (ℕ × Phase)
unfolding nat_eq
phase_of [] t = none
phase_of ((n, p) ∷ rest) t = if n == t then some p else phase_of rest t

unfoldable pub set_phase : Timers → ℕ → Phase → Timers
unfolding nat_eq
set_phase [] t p = []
set_phase ((n, (g, q)) ∷ rest) t p =
    let later = set_phase rest t p in if n == t then (n, (g, p)) ∷ rest else (n, (g, q)) ∷ later

-- `(*time.Timer).Stop` answers true for these only.
unfoldable pub is_armed : Option (ℕ × Phase) → Bool
is_armed (some (g, armed)) = true
is_armed _ = false

-- `w.debounce == timer`
unfoldable pub is_timer : Option ℕ → ℕ → Bool
unfolding nat_eq
is_timer none t = false
is_timer (some d) t = d == t

-- The functions that still owe a `Done` to the wait group.
unfoldable pub weight : Phase → ℕ
weight finished = 0
weight _ = 1

unfoldable pub outstanding : Timers → ℕ
unfolding weight
outstanding [] = 0
outstanding ((n, (g, p)) ∷ rest) = weight p + outstanding rest

pub outstanding-set_phase :
    (l : Timers) (t g : ℕ) (q p : Phase)
    → phase_of l t ≡ some (g, q)
    → outstanding (set_phase l t p) + weight q ≡ outstanding l + weight p
unfolding outstanding set_phase phase_of nat_eq
outstanding-set_phase [] t g q p e = cc
outstanding-set_phase ((n, (g', q')) ∷ rest) t g q p e =
    ground (arith, outstanding-set_phase rest t g q p)

pub phase_of-set_phase :
    (l : Timers) (t g : ℕ) (q p : Phase)
    → phase_of l t ≡ some (g, q)
    → phase_of (set_phase l t p) t ≡ some (g, p)
unfolding set_phase phase_of nat_eq
phase_of-set_phase [] t g q p e = cc
phase_of-set_phase ((n, (g', q')) ∷ rest) t g q p e =
    ground (arith, phase_of-set_phase rest t g q p)

pub phase_of-set_phase_other :
    (l : Timers) (t u : ℕ) (p : Phase) → (t ≡ u → ⊥) → phase_of (set_phase l t p) u ≡ phase_of l u
unfolding set_phase phase_of nat_eq
phase_of-set_phase_other [] t u p d = refl
phase_of-set_phase_other ((n, (g, q)) ∷ rest) t u p d =
    ground (arith, phase_of-set_phase_other rest t u p d)

-- No timer is armed.
abbrev pub Disarmed : Timers → Type 0
Disarmed l = (t g : ℕ) → phase_of l t ≡ some (g, armed) → ⊥

-- No timer is armed but the one that the debounce waits for.
abbrev pub OneArmed : Timers → Option ℕ → Type 0
OneArmed l debounce = (t g : ℕ) → phase_of l t ≡ some (g, armed) → debounce ≡ some t

-- Every timer has a number below the given one.
abbrev pub Numbered : Timers → ℕ → Type 0
Numbered l n = (t : ℕ) → n ≤ t → phase_of l t ≡ none

same_or_other : (t u : ℕ) → (t ≡ u) ⊎ (t ≡ u → ⊥)
same_or_other t u = omega arith

pub phase_of-set_phase-cases :
    (l : Timers) (t g : ℕ) (q p : Phase) (u : ℕ)
    → phase_of l t ≡ some (g, q)
    → ((t ≡ u) × (phase_of (set_phase l t p) u ≡ some (g, p)))
      ⊎ ((t ≡ u → ⊥) × (phase_of (set_phase l t p) u ≡ phase_of l u))
phase_of-set_phase-cases l t g q p u e = elim (same_or_other t u) [
  | inl same ↦ inl (same, rw (sym same) (phase_of-set_phase l t g q p e))
  | inr other ↦ inr (other, phase_of-set_phase_other l t u p other)
]

-- A timer that was given another phase than `armed`.
pub set_phase-OneArmed :
    (l : Timers) (debounce : Option ℕ) (t g : ℕ) (q p : Phase)
    → phase_of l t ≡ some (g, q)
    → (p ≡ armed → ⊥)
    → OneArmed l debounce
    → OneArmed (set_phase l t p) debounce
set_phase-OneArmed l debounce t g q p e d one u g' a =
    elim (phase_of-set_phase-cases l t g q p u e) [
      | inl h ↦ ground arith
      | inr h ↦ one u g' (sym (h.1) ∙ a)
    ]

pub set_phase-Disarmed :
    (l : Timers) (t g : ℕ) (q p : Phase)
    → phase_of l t ≡ some (g, q)
    → (p ≡ armed → ⊥)
    → OneArmed l (some t)
    → Disarmed (set_phase l t p)
set_phase-Disarmed l t g q p e d one u g' a = elim (phase_of-set_phase-cases l t g q p u e) [
  | inl h ↦ ground arith
  | inr h ↦ ground (arith, one u g' (sym (h.1) ∙ a))
]

pub set_phase-Numbered :
    (l : Timers) (n t g : ℕ) (q p : Phase)
    → phase_of l t ≡ some (g, q)
    → Numbered l n
    → Numbered (set_phase l t p) n
set_phase-Numbered l n t g q p e num u le = elim (phase_of-set_phase-cases l t g q p u e) [
  | inl h ↦ ground (arith, num u le)
  | inr h ↦ h.1 ∙ num u le
]

-- The newest timer stands first.
abbrev pub Ordered : Timers → Type 0
Ordered [] = Unit
Ordered ((n, p) ∷ rest) = Numbered rest n × Ordered rest

set_phase-absent :
    (l : Timers) (t : ℕ) (p : Phase) (u : ℕ)
    → phase_of l u ≡ none
    → phase_of (set_phase l t p) u ≡ none
unfolding set_phase phase_of nat_eq
set_phase-absent [] t p u e = refl
set_phase-absent ((n, (g, q)) ∷ rest) t p u e = ground (arith, set_phase-absent rest t p u)

pub set_phase-Ordered : (l : Timers) (t : ℕ) (p : Phase) → Ordered l → Ordered (set_phase l t p)
unfolding set_phase
set_phase-Ordered [] t p o = tt
set_phase-Ordered ((n, (g, q)) ∷ rest) t p o =
    if-holds Ordered (n == t) (λ e. o)
      (λ e. (λ u le. set_phase-absent rest t p u (o.0 u le), set_phase-Ordered rest t p o.1))

-- The steps that the function of a timer still has before it.
unfoldable pub effort : Phase → ℕ
effort armed = 5
effort fired = 4
effort accepted = 3
effort calling = 2
effort leaving = 1
effort finished = 0

unfoldable pub efforts : Timers → ℕ
unfolding effort
efforts [] = 0
efforts ((n, (g, p)) ∷ rest) = effort p + efforts rest

pub efforts-set_phase :
    (l : Timers) (t g : ℕ) (q p : Phase)
    → phase_of l t ≡ some (g, q)
    → efforts (set_phase l t p) + effort q ≡ efforts l + effort p
unfolding efforts set_phase phase_of nat_eq
efforts-set_phase [] t g q p e = cc
efforts-set_phase ((n, (g', q')) ∷ rest) t g q p e = ground (arith, efforts-set_phase rest t g q p)

-- The callbacks that are certain to begin: their functions have passed the test under the lock.
unfoldable pub due : Bool → Phase → ℕ
due has_callback accepted = if has_callback then 1 else 0
due has_callback _ = 0

unfoldable pub owed : Bool → Timers → ℕ
unfolding due
owed has_callback [] = 0
owed has_callback ((n, (g, p)) ∷ rest) = due has_callback p + owed has_callback rest

pub owed-set_phase :
    (b : Bool) (l : Timers) (t g : ℕ) (q p : Phase)
    → phase_of l t ≡ some (g, q)
    → owed b (set_phase l t p) + due b q ≡ owed b l + due b p
unfolding owed set_phase phase_of nat_eq
owed-set_phase b [] t g q p e = cc
owed-set_phase b ((n, (g', q')) ∷ rest) t g q p e = ground (arith, owed-set_phase b rest t g q p)

due_le : (b : Bool) (p : Phase) → due b p ≤ weight p
unfolding due weight
due_le true accepted = omega arith
due_le false accepted = omega arith
due_le b armed = omega arith
due_le b fired = omega arith
due_le b calling = omega arith
due_le b leaving = omega arith
due_le b finished = omega arith

pub owed_le : (b : Bool) (l : Timers) → owed b l ≤ outstanding l
unfolding owed outstanding
owed_le b [] = omega arith
owed_le b ((n, (g, p)) ∷ rest) = omega (arith, due_le b p, owed_le b rest)

-- A callback that is certain to begin has a function.
pub find_owed :
    (l : Timers) → Ordered l → 0 < owed true l → (t g : ℕ) × (phase_of l t ≡ some (g, accepted))
unfolding owed phase_of nat_eq due
find_owed [] o h = absurd (omega (arith, h))
find_owed ((n, (g, accepted)) ∷ rest) o h = (n, g, ground arith)
find_owed ((n, (g, armed)) ∷ rest) o h =
    let (t, g', e) = find_owed rest o.1 (omega (arith, h)) in (t, g', ground (arith, o.0 t))
find_owed ((n, (g, fired)) ∷ rest) o h =
    let (t, g', e) = find_owed rest o.1 (omega (arith, h)) in (t, g', ground (arith, o.0 t))
find_owed ((n, (g, calling)) ∷ rest) o h =
    let (t, g', e) = find_owed rest o.1 (omega (arith, h)) in (t, g', ground (arith, o.0 t))
find_owed ((n, (g, leaving)) ∷ rest) o h =
    let (t, g', e) = find_owed rest o.1 (omega (arith, h)) in (t, g', ground (arith, o.0 t))
find_owed ((n, (g, finished)) ∷ rest) o h =
    let (t, g', e) = find_owed rest o.1 (omega (arith, h)) in (t, g', ground (arith, o.0 t))

-- Where the wait group is above zero, some function has not ended.
pub find_outstanding :
    (l : Timers)
    → Ordered l
    → 0 < outstanding l
    → (t g : ℕ) × (p : Phase) × (phase_of l t ≡ some (g, p)) × (weight p ≡ 1)
unfolding outstanding phase_of nat_eq weight
find_outstanding [] o h = absurd (omega (arith, h))
find_outstanding ((n, (g, armed)) ∷ rest) o h = (n, g, armed, ground arith, refl)
find_outstanding ((n, (g, fired)) ∷ rest) o h = (n, g, fired, ground arith, refl)
find_outstanding ((n, (g, accepted)) ∷ rest) o h = (n, g, accepted, ground arith, refl)
find_outstanding ((n, (g, calling)) ∷ rest) o h = (n, g, calling, ground arith, refl)
find_outstanding ((n, (g, leaving)) ∷ rest) o h = (n, g, leaving, ground arith, refl)
find_outstanding ((n, (g, finished)) ∷ rest) o h =
    let (t, g', p, e, one) = find_outstanding rest o.1 (omega (arith, h)) in
    (t, g', p, ground (arith, o.0 t), one)
