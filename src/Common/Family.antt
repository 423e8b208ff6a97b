-- ===== src/Common/Family.antt =====
-- Families `ℕ → A`: the update at one index.
use Prim.Native.Nat.{ℕ}
use mathlib.Core.Logic.{ite}
use native.Mathlib.Decide.{ℕ_discrete}

abbrev pub update {ℓ} : {A : Type ℓ} → (ℕ → A) → ℕ → A → ℕ → A
update f i a j = ite (ℕ_discrete i j) a (f j)
