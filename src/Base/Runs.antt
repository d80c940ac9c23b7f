-- ===== src/Base/Runs.antt =====
-- Runs of a step relation, and the properties that every step keeps.
pub data Reach {ℓ} {A : Type ℓ} (Step : A → A → Type 0) (s : A) : A → Type ℓ where
  here : Reach Step s s
  next : {t u : A} → Reach Step s t → Step t u → Reach Step s u

module _ {ℓ κ} {A : Type ℓ} {Step : A → A → Type 0} where
  -- What every step keeps, every run keeps.
  pub Reach-keeps :
      (I : A → Type κ) (keep : (t u : A) → Step t u → I t → I u) {s t : A}
      → Reach Step s t
      → I s
      → I t
  Reach-keeps I keep here i = i
  Reach-keeps I keep (next r step) i = keep _ _ step (Reach-keeps I keep r i)

pub Reach-trans {ℓ} :
    {A : Type ℓ} {Step : A → A → Type 0} {s t u : A}
    → Reach Step s t
    → Reach Step t u
    → Reach Step s u
Reach-trans r here = r
Reach-trans r (next q step) = next (Reach-trans r q) step
