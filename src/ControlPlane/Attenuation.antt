-- ===== src/ControlPlane/Attenuation.antt =====
-- Chains of delegated grants, src/provable_agent_reference/control_plane/models.py.
use text.Mathlib.TextEquality.{eq_iff}
use provable_agent_reference.Base.{
  ℕ, suc, ◌+◌, ◌≤◌, ◌≡◌, refl, sym, ap, ◌∙◌, String, true, false, not, ◌||◌, ◌==◌, List, [], ◌∷◌,
  arith, member, inl, inr, leb, Bool-cases, ||-eq-false, leb→le, &&-eq-true, eq_iff,
}
use provable_agent_reference.Errors.{ok, >>-eq-ok, raise_if-ok, raise_if, value_error}
use provable_agent_reference.Json.{ℤ, pos, negsuc}
use provable_agent_reference.ControlPlane.Models.{
  CapabilityGrant, post_init, permits_child, is_subset, int_leb, int_ltb, bounded, is_negative,
}

-- A grant that is a number of delegations below a root: each grant was constructed, and each
-- permits the next.
pub data Descends (root : CapabilityGrant) : ℕ → CapabilityGrant → Type 0 where
  itself : post_init root ≡ ok tt → Descends root 0 root
  delegated :
      {n : ℕ} {parent child : CapabilityGrant}
      → Descends root n parent
      → post_init child ≡ ok tt
      → permits_child parent child ≡ true
      → Descends root (suc n) child

member-is_subset :
    (x : String) (xs ys : List String)
    → is_subset xs ys ≡ true
    → member x xs ≡ true
    → member x ys ≡ true
member-is_subset x [] ys h k = cc
member-is_subset x (z ∷ xs) ys h k =
    let (first, rest) = &&-eq-true {a = member z ys} h in
    elim (Bool-cases (x == z)) [
      | inl e ↦ ap (λ w. member w ys) ((eq_iff x z).0 e) ∙ first
      | inr e ↦ member-is_subset x xs ys rest (sym (ap (λ b. b || member x xs) e) ∙ k)
    ]

-- The authority of the first grant is within that of the second.
pub record IsWithin (g root : CapabilityGrant) : Type 0 where
  pub capabilities :
      (c : String) → member c g.capabilities ≡ true → member c root.capabilities ≡ true
  pub tenant : g.tenant_id ≡ root.tenant_id
  pub case : g.case_id ≡ root.case_id
  pub effects :
      (e : String) → member e g.allowed_effects ≡ true → member e root.allowed_effects ≡ true
  pub tool_calls : int_leb g.max_tool_calls root.max_tool_calls ≡ true
  pub model_calls : int_leb g.max_model_calls root.max_model_calls ≡ true
  pub valid_until : g.valid_until.instant ≤ root.valid_until.instant

int_leb_trans : (a b c : ℤ) → int_leb a b ≡ true → int_leb b c ≡ true → int_leb a c ≡ true
int_leb_trans (pos a) (pos b) (pos c) h k = ground arith
int_leb_trans (pos a) (pos b) (negsuc c) h k = ground arith
int_leb_trans (pos a) (negsuc b) c h k = cc
int_leb_trans (negsuc a) b (pos c) h k = refl
int_leb_trans (negsuc a) (pos b) (negsuc c) h k = cc
int_leb_trans (negsuc a) (negsuc b) (negsuc c) h k = ground arith

int_leb_refl : (a : ℤ) → int_leb a a ≡ true
int_leb_refl (pos a) = ground arith
int_leb_refl (negsuc a) = ground arith

step-IsWithin :
    {root parent child : CapabilityGrant}
    → IsWithin parent root
    → permits_child parent child ≡ true
    → IsWithin child root
unfolding permits_child
step-IsWithin {root} {parent} {child} w h =
    let (p₁, h₁) = &&-eq-true {a = is_subset child.capabilities parent.capabilities} h in
    let (p₂, h₂) = &&-eq-true {a = child.tenant_id == parent.tenant_id} h₁ in
    let (p₃, h₃) = &&-eq-true {a = child.case_id == parent.case_id} h₂ in
    let (p₄, h₄) = &&-eq-true {a = is_subset child.allowed_effects parent.allowed_effects} h₃ in
    let (p₅, h₅) = &&-eq-true {a = int_leb child.max_tool_calls parent.max_tool_calls} h₄ in
    let (p₆, h₆) = &&-eq-true {a = int_leb child.max_model_calls parent.max_model_calls} h₅ in
    let (p₇, h₇) = &&-eq-true {a = leb child.valid_until.instant parent.valid_until.instant} h₆ in
    record {
      capabilities = λ c k. w.capabilities c (member-is_subset c _ _ p₁ k);
      tenant = (eq_iff _ _).0 p₂ ∙ w.tenant;
      case = (eq_iff _ _).0 p₃ ∙ w.case;
      effects = λ e k. w.effects e (member-is_subset e _ _ p₄ k);
      tool_calls =
          int_leb_trans child.max_tool_calls parent.max_tool_calls root.max_tool_calls p₅
            w.tool_calls;
      model_calls =
          int_leb_trans child.max_model_calls parent.max_model_calls root.max_model_calls p₆
            w.model_calls;
      valid_until =
          let q = leb→le child.valid_until.instant parent.valid_until.instant p₇ in
          let r = w.valid_until in omega arith;
    }

int_ltb-nonnegative : (a : ℤ) → int_ltb a (pos 0) ≡ false → (n : ℕ) × (a ≡ pos n)
int_ltb-nonnegative (pos n) h = (n, refl)
int_ltb-nonnegative (negsuc n) h = cc

post_init-depth :
    (g : CapabilityGrant) → post_init g ≡ ok tt → (n : ℕ) × (g.delegation_depth ≡ pos n)
unfolding post_init
post_init-depth g h =
    let (_, h₁) = >>-eq-ok (bounded g.tenant_id "tenant_id" 200) _ h in
    let (_, h₂) = >>-eq-ok (bounded g.case_id "case_id" 200) _ h₁ in
    let (_, h₃) = >>-eq-ok (raise_if _ value_error _) _ h₂ in
    let (budgets, _) = >>-eq-ok (raise_if _ value_error _) _ h₃ in
    int_ltb-nonnegative g.delegation_depth
      (||-eq-false {a = is_negative g.max_tool_calls || is_negative g.max_model_calls}
        (raise_if-ok _ _ _ budgets)).1

-- A delegation spends at least one of the depth that the parent has.
step-depth :
    (parent child : CapabilityGrant) {d e : ℕ}
    → parent.delegation_depth ≡ pos d
    → child.delegation_depth ≡ pos e
    → permits_child parent child ≡ true
    → suc e ≤ d
unfolding permits_child
step-depth parent child {d} {e} p q h =
    let (_, h₁) = &&-eq-true {a = is_subset child.capabilities parent.capabilities} h in
    let (_, h₂) = &&-eq-true {a = child.tenant_id == parent.tenant_id} h₁ in
    let (_, h₃) = &&-eq-true {a = child.case_id == parent.case_id} h₂ in
    let (_, h₄) = &&-eq-true {a = is_subset child.allowed_effects parent.allowed_effects} h₃ in
    let (_, h₅) = &&-eq-true {a = int_leb child.max_tool_calls parent.max_tool_calls} h₄ in
    let (_, h₆) = &&-eq-true {a = int_leb child.max_model_calls parent.max_model_calls} h₅ in
    let (_, h₇) = &&-eq-true {a = leb child.valid_until.instant parent.valid_until.instant} h₆ in
    let spent : not (leb d e) ≡ true =
      sym (ap (λ x. int_ltb x parent.delegation_depth) q ∙ ap (λ x. int_ltb (pos e) x) p) ∙ h₇ in
    ground arith

Descends-depth :
    {root g : CapabilityGrant} {n d : ℕ}
    → Descends root n g
    → root.delegation_depth ≡ pos d
    → (e : ℕ) × (g.delegation_depth ≡ pos e) × (e + n ≤ d)
Descends-depth {d = d} (itself v) p = (d, p, omega arith)
Descends-depth (delegated {parent = parent} {child = child} s v h) p =
    let (b, q, below) = Descends-depth s p in
    let (e, r) = post_init-depth child v in
    let spent = step-depth parent child q r h in (e, r, omega arith)

Descends-IsWithin : {root g : CapabilityGrant} {n : ℕ} → Descends root n g → IsWithin g root
Descends-IsWithin {root} (itself v) = record {
  capabilities = λ c k. k;
  tenant = refl;
  case = refl;
  effects = λ e k. k;
  tool_calls = int_leb_refl root.max_tool_calls;
  model_calls = int_leb_refl root.max_model_calls;
  valid_until = omega arith;
}
Descends-IsWithin (delegated d v h) = step-IsWithin (Descends-IsWithin d) h

Descends-root : {root g : CapabilityGrant} {n : ℕ} → Descends root n g → post_init root ≡ ok tt
Descends-root (itself v) = v
Descends-root (delegated s v h) = Descends-root s

-- A grant that stands n delegations below a root, where each grant passes its validation and
-- each permits the next, is within the root's authority in capabilities, scope, effects,
-- budgets and time, and n is at most the root's delegation depth.
pub Descends-attenuates :
    {root g : CapabilityGrant} {n : ℕ}
    → Descends root n g
    → IsWithin g root × int_leb (pos n) root.delegation_depth ≡ true
Descends-attenuates {root} {g} {n} s =
    let (d, p) = post_init-depth root (Descends-root s) in
    let (e, q, below) = Descends-depth s p in
    let bound : leb n d ≡ true = ground arith in
    (Descends-IsWithin s, ap (λ x. int_leb (pos n) x) p ∙ bound)
