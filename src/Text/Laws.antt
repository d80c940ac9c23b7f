-- ===== src/Text/Laws.antt =====
-- Trimming and lower case: what a second run leaves alone, and how the two commute.
use mathlib.Core.List.{reverse, reverse-reverse, reverse-append}
use zoraxy_cert_warden.Base.{
  ℕ, ◌+◌, ◌≤◌, ◌≡◌, refl, sym, ◌⊎◌, inl, inr, true, false, [], ◌∷◌, ◌++◌, Str, arith, nat_eq,
  Bool-cases,
}
use zoraxy_cert_warden.Text.{is_space, trim_left, trim_space, lower_rune, to_lower}

trim_left_keep : (c : ℕ) (s : Str) → is_space c ≡ false → trim_left (c ∷ s) ≡ c ∷ s
unfolding trim_left
trim_left_keep c s e = rw e

trim_left_drop : (c : ℕ) (s : Str) → is_space c ≡ true → trim_left (c ∷ s) ≡ trim_left s
unfolding trim_left
trim_left_drop c s e = rw e

-- What trimming leaves is empty or begins with no space.
trim_left_cases :
    (s : Str)
    → (trim_left s ≡ []) ⊎ ((c : ℕ) × (r : Str) × (trim_left s ≡ c ∷ r) × (is_space c ≡ false))
trim_left_cases [] = inl (unfold trim_left in refl)
trim_left_cases (c ∷ s) = elim (Bool-cases (is_space c)) [
  | inl e ↦ rw (trim_left_drop c s e) (trim_left_cases s)
  | inr e ↦ inr (c, s, trim_left_keep c s e, e)
]

trim_left-snoc :
    (s : Str) (c : ℕ) → is_space c ≡ false → trim_left (s ++ c ∷ []) ≡ trim_left s ++ c ∷ []
trim_left-snoc [] c e = unfold trim_left in rw e
trim_left-snoc (d ∷ s) c e = elim (Bool-cases (is_space d)) [
  | inl h ↦ rw (trim_left_drop d (s ++ c ∷ []) h, trim_left_drop d s h) (trim_left-snoc s c e)
  | inr h ↦ rw (trim_left_keep d (s ++ c ∷ []) h, trim_left_keep d s h) refl
]

-- A text with no space in front keeps its front when its end is trimmed.
trim_space-cons :
    (c : ℕ) (s : Str)
    → is_space c ≡ false
    → trim_space (c ∷ s) ≡ c ∷ reverse (trim_left (reverse s))
unfolding trim_space
trim_space-cons c s e =
    rw (trim_left_keep c s e, reverse-append (c ∷ []) s, trim_left-snoc (reverse s) c e)
      (reverse-append (trim_left (reverse s)) (c ∷ []))

trim_left_idem : (s : Str) → trim_left (trim_left s) ≡ trim_left s
trim_left_idem s = elim (trim_left_cases s) [
  | inl e ↦ rw e (unfold trim_left in refl)
  | inr (c, r, e, h) ↦ rw e (trim_left_keep c r h)
]

trim_space-trim_left : (s : Str) → trim_space (trim_left s) ≡ trim_space s
unfolding trim_space
trim_space-trim_left s = rw trim_left_idem

trim_space_idem_cons :
    (c : ℕ) (r : Str) → is_space c ≡ false → trim_space (trim_space (c ∷ r)) ≡ trim_space (c ∷ r)
trim_space_idem_cons c r h = rw (trim_space-cons c r h) (
    rw (trim_space-cons c (reverse (trim_left (reverse r))) h)
      (rw (reverse-reverse, trim_left_idem) refl))

-- Trimming a trimmed text changes nothing.
pub trim_space_idem : (s : Str) → trim_space (trim_space s) ≡ trim_space s
trim_space_idem s = elim (trim_left_cases s) [
  | inl e ↦ rw (← trim_space-trim_left s, e) (unfold trim_space trim_left in refl)
  | inr (c, r, e, h) ↦ rw (← trim_space-trim_left s, e) (trim_space_idem_cons c r h)
]

is_space_of_letter : (c : ℕ) → 65 ≤ c → c ≤ 122 → is_space c ≡ false
unfolding is_space
is_space_of_letter c h k = ground arith

-- A rune is kept, or both it and its lower case are no spaces.
lower_rune_cases :
    (c : ℕ)
    → (lower_rune c ≡ c)
      ⊎ ((65 ≤ c) × (c ≤ 90) × (lower_rune c ≡ c + 32))
      ⊎ ((c ≡ 0x130) × (lower_rune c ≡ 105))
      ⊎ ((c ≡ 0x212a) × (lower_rune c ≡ 107))
unfolding lower_rune
lower_rune_cases c = ground arith

lower_rune-is_space : (c : ℕ) → is_space (lower_rune c) ≡ is_space c
lower_rune-is_space c = elim (lower_rune_cases c) [
  | inl e ↦ rw e
  | inr (inl (lo, hi, e)) ↦
      rw (e, is_space_of_letter c lo (omega arith))
        (is_space_of_letter (c + 32) (omega arith) (omega arith))
  | inr (inr (inl (e, k))) ↦ rw (k, e) (unfold is_space in refl)
  | inr (inr (inr (e, k))) ↦ rw (k, e) (unfold is_space in refl)
]

lower_rune_idem : (c : ℕ) → lower_rune (lower_rune c) ≡ lower_rune c
unfolding lower_rune
lower_rune_idem c = ground arith

pub to_lower_idem : (s : Str) → to_lower (to_lower s) ≡ to_lower s
unfolding to_lower
to_lower_idem [] = refl
to_lower_idem (c ∷ s) = rw (lower_rune_idem c, to_lower_idem s)

to_lower-append : (s t : Str) → to_lower (s ++ t) ≡ to_lower s ++ to_lower t
unfolding to_lower
to_lower-append [] t = refl
to_lower-append (c ∷ s) t = rw (to_lower-append s t)

to_lower-reverse : (s : Str) → to_lower (reverse s) ≡ reverse (to_lower s)
unfolding to_lower
to_lower-reverse [] = refl
to_lower-reverse (c ∷ s) =
    rw (reverse-append (c ∷ []) s, to_lower-append, to_lower-reverse s)
      (sym (reverse-append (lower_rune c ∷ []) (to_lower s)))

trim_left-to_lower : (s : Str) → trim_left (to_lower s) ≡ to_lower (trim_left s)
unfolding trim_left to_lower
trim_left-to_lower [] = refl
trim_left-to_lower (c ∷ s) = ground (arith, lower_rune-is_space c, trim_left-to_lower s)

-- Trimming and lower case may change places.
pub trim_space-to_lower : (s : Str) → trim_space (to_lower s) ≡ to_lower (trim_space s)
unfolding trim_space
trim_space-to_lower s =
    rw (trim_left-to_lower, ← to_lower-reverse, trim_left-to_lower, to_lower-reverse)
