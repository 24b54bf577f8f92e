-- ===== src/Workflow/Engine/Rounds.antt =====
-- Induction over the rounds of the loop.
use Prim.Native.Nat.{zero}
use mathlib.Core.Path.{subst}
use civiclens.Prelude.{ℕ, List, ◌≡◌, some, ◌⊎◌, arith, inl, inr, suc, refl}
use civiclens.Workflow.Engine.{
  Round, continue, return, StepSpec, Registry, Execution, round, loop, ℕ, List,
}

pub Round-cases :
    {W : Type 0} (r : Round W)
    → ((j : ℕ) × (e : Execution W) × (r ≡ continue j e)) ⊎ ((e : Execution W) × (r ≡ return e))
Round-cases (continue j e) = inl (j, e, refl)
Round-cases (return e) = inr (e, refl)

-- `P` of where a round goes on, `Q` of where it ends the run.
abbrev pub Holds :
    {W : Type 0} → (ℕ → Execution W → Type 0) → (Execution W → Type 0) → Round W → Type 0
Holds P Q (continue j e) = P j e
Holds P Q (return e) = Q e

module _ {W : Type 0} (registry : Registry W) (specs : List StepSpec) (P : ℕ → Execution W → Type 0)
    (Q : Execution W → Type 0)
    (keep : (i : ℕ) (e : Execution W) → P i e → Holds P Q (round registry specs i e)) where
  pub loop_induction :
      (fuel i : ℕ) (e e' : Execution W) → P i e → loop fuel registry specs i e ≡ some e' → Q e'
  unfolding loop
  loop_induction zero i e e' p h = absurd (ground arith)
  loop_induction (suc fuel) i e e' p h = elim (Round-cases (round registry specs i e)) [
    | inl (j, e1, r) ↦
        loop_induction fuel j e1 e' (subst (Holds P Q) r (keep i e p)) (rw (r, loop) at h)
    | inr (e1, r) ↦
        let same : e1 ≡ e' = cc (rw (r, loop) at h) in
        subst Q same (subst (Holds P Q) r (keep i e p))
  ]
