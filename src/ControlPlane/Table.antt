-- ===== src/ControlPlane/Table.antt =====
-- A table as the list of its rows, and the statements that
-- src/provable_agent_reference/control_plane/store.py runs on one.
pub mod Found
pub mod Each
pub mod Counts
use mathlib.Core.Path.{subst}
use mathlib.Core.Option.{Option, none, some, some-injective}
use Prim.Native.String.{compare}
use text.Mathlib.Text.{is_le}
use provable_agent_reference.Base.{
  ℕ, ◌+◌, ◌≤◌, ◌≡◌, refl, sym, ◌∙◌, String, Bool, true, false, ◌&&◌, ◌||◌, List, [], ◌∷◌,
  if◌then◌else◌, All, Bool-cases, inl, inr, ltb, nat_eq, arith,
}

module _ {A : Type 0} where
  -- `SELECT ... WHERE test`
  unfoldable pub select : (A → Bool) → List A → List A
  select test [] = []
  select test (r ∷ rs) = let rest = select test rs in if test r then r ∷ rest else rest

  -- `UPDATE ... SET ... WHERE test`
  unfoldable pub update : (A → Bool) → (A → A) → List A → List A
  update test change [] = []
  update test change (r ∷ rs) = (if test r then change r else r) ∷ update test change rs

  -- How many rows an update changes.
  unfoldable pub rowcount : (A → Bool) → List A → ℕ
  rowcount test [] = 0
  rowcount test (r ∷ rs) = (if test r then 1 else 0) + rowcount test rs

  -- `ORDER BY`, with `le` as the order of two rows
  unfoldable pub place : (A → A → Bool) → A → List A → List A
  place le r [] = r ∷ []
  place le r (s ∷ rs) = let rest = place le r rs in if le r s then r ∷ s ∷ rs else s ∷ rest

  unfoldable pub order_by : (A → A → Bool) → List A → List A
  unfolding place
  order_by le [] = []
  order_by le (r ∷ rs) = place le r (order_by le rs)

  -- The rows in the order of insertion.
  unfoldable pub insert_row : A → List A → List A
  insert_row r [] = r ∷ []
  insert_row r (s ∷ rs) = s ∷ insert_row r rs

  -- The first row that a test finds.
  unfoldable pub first : (A → Bool) → List A → Option A
  first test [] = none
  first test (r ∷ rs) = let rest = first test rs in if test r then some r else rest

-- Two rows in the order of a time and a text, texts by their code points.
abbrev pub time_then_text : ℕ → String → ℕ → String → Bool
time_then_text t s u v = ltb t u || (nat_eq t u && is_le (compare s v))
