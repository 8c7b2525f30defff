-- ===== src/Workflow/Gateway/Budget.antt =====
-- The calls that a gateway lets through, over any sequence of invocations.
use text.Mathlib.TextEquality.{eq_iff}
use text.Mathlib.TextPositions.{eq_refl}
use provable_agent_reference.Base.{
  ℕ, suc, ◌+◌, ◌≤◌, ◌<◌, ◌≡◌, refl, sym, ap, ◌∙◌, String, true, false, ◌==◌, if◌then◌else◌, List,
  [], ◌∷◌, All, get-put_same, get-put_other, inl, inr, Bool-cases, arith, &&-eq-true, &&-intro,
  ◌<>◌,
}
use provable_agent_reference.Errors.{Result, ok, err, raise_if, require_that, >>-eq-ok, raise_if-ok}
use provable_agent_reference.Canonical.{Sha256}
use provable_agent_reference.Json.{ℤ, Value, pos, negsuc}
use provable_agent_reference.ControlPlane.Models.{int_leb}
use provable_agent_reference.Workflow.Grant.{require_grant}
use provable_agent_reference.Workflow.Gateway.{
  PolicyEnforcingToolGateway, Invocation, invoke, invoked, invoke_allowed, charged, calls_of,
  count_of, budget_key, pair_eq, answer,
}

pair_eq_refl : (p : String × String) → pair_eq p p ≡ true
pair_eq_refl (a, b) = &&-intro (eq_refl a) (eq_refl b)

pair_eq_sound : (p q : String × String) → pair_eq p q ≡ true → p ≡ q
pair_eq_sound (a, b) (c, d) h =
    let (e, f) = &&-eq-true {a = a == c} h in λ i. ((eq_iff a c).0 e i, (eq_iff b d).0 f i)

pair_eq_trans :
    (p q r : String × String) → pair_eq p q ≡ true → pair_eq r q ≡ true → pair_eq p r ≡ true
pair_eq_trans p q r h k =
    ap (λ x. pair_eq x r) (pair_eq_sound p q h ∙ sym (pair_eq_sound r q k)) ∙ pair_eq_refl r

abbrev counts : String × String → Invocation → Result (Value × Value) → ℕ
counts key i (ok r) = if pair_eq key (budget_key i.context) then 1 else 0
counts key i (err e m) = 0

within_budget :
    (limit n : ℕ) (budget : ℤ)
    → int_leb budget (pos limit) ≡ true
    → int_leb budget (pos n) ≡ false
    → n < limit
within_budget limit n (pos b) h k = ground arith
within_budget limit n (negsuc b) h k = cc

invoke_allowed-budget :
    (self : PolicyEnforcingToolGateway) (i : Invocation)
    → invoke_allowed self i ≡ ok tt
    → int_leb i.grant.max_tool_calls (pos (calls_of self (budget_key i.context))) ≡ false
unfolding invoke_allowed
invoke_allowed-budget self i h =
    let (_, h₁) = >>-eq-ok (require_grant i.now i.context i.grant ("tool." <> i.tool_id)) _ h in
    let (_, h₂) = >>-eq-ok (require_that (i.tool_id == "control_lookup") _ _) _ h₁ in
    let (_, last) = >>-eq-ok (raise_if _ _ _) _ h₂ in raise_if-ok _ _ _ last

charged_same :
    (self : PolicyEnforcingToolGateway) (i : Invocation)
    → calls_of (charged self i) (budget_key i.context) ≡ suc (calls_of self (budget_key i.context))
charged_same self i = ap count_of (
    get-put_same pair_eq pair_eq_refl (budget_key i.context)
      (suc (calls_of self (budget_key i.context))) self.calls)

module _ ⦃H : Sha256⦄ (str_of : Value → String) where
  -- How many of the invocations, made one after the other, returned a result to the agent of a run.
  unfoldable pub returned : String × String → PolicyEnforcingToolGateway → List Invocation → ℕ
  returned key self [] = 0
  returned key self (i ∷ is) =
      let out = invoke str_of self i in counts key i out.1 + returned key out.0 is

  counts_bound :
      (key : String × String) (i : Invocation) (r : Result (Value × Value)) → counts key i r ≤ 1
  counts_bound key i (err e m) = omega arith
  counts_bound key i (ok r) = elim (Bool-cases (pair_eq key (budget_key i.context))) [
    | inl e ↦ rw e (omega arith)
    | inr e ↦ rw e (omega arith)
  ]

  counts_other :
      (key : String × String) (i : Invocation) (r : Result (Value × Value))
      → pair_eq key (budget_key i.context) ≡ false
      → counts key i r ≡ 0
  counts_other key i (err e m) h = refl
  counts_other key i (ok r) h = ap (λ b. if b then 1 else 0) h

  -- One invocation keeps the calls of an agent and those it has answered within the limit.
  step_budget :
      (key : String × String) (limit : ℕ) (self : PolicyEnforcingToolGateway) (i : Invocation)
      (check : Result (Unit {0}))
      → invoke_allowed self i ≡ check
      → int_leb i.grant.max_tool_calls (pos limit) ≡ true
      → calls_of self key ≤ limit
      → (calls_of self key + counts key i (invoked str_of self i check).1
          ≤ calls_of (invoked str_of self i check).0 key)
        × (calls_of (invoked str_of self i check).0 key ≤ limit)
  step_budget key limit self i (err e m) allowed granted below = (omega arith, below)
  step_budget key limit self i (ok tt) allowed granted below =
      elim (Bool-cases (pair_eq key (budget_key i.context))) [
        | inl e ↦
            let p = pair_eq_sound key (budget_key i.context) e in
            let charges : calls_of (charged self i) key ≡ suc (calls_of self key) =
              ap (λ k. calls_of (charged self i) k) p
              ∙ (charged_same self i ∙ ap (λ k. suc (calls_of self k)) (sym p)) in
            let open_budget =
              within_budget limit (calls_of self (budget_key i.context)) i.grant.max_tool_calls
                granted (invoke_allowed-budget self i allowed) in
            let same_calls = ap (λ k. calls_of self k) p in
            let once = counts_bound key i (answer str_of i) in (omega arith, omega arith)
        | inr e ↦
            let kept : calls_of (charged self i) key ≡ calls_of self key = ap count_of (
              get-put_other pair_eq pair_eq_trans key (budget_key i.context)
                (suc (calls_of self (budget_key i.context))) self.calls e) in
            let uncounted = counts_other key i (answer str_of i) e in (omega arith, omega arith)
      ]

  -- Over any sequence of invocations whose grants allow at most a limit of tool calls, on a
  -- gateway where an agent of a run has made at most that many, the calls made before and the
  -- results that the agent gets are together at most the limit.
  pub returned-bound :
      (key : String × String) (limit : ℕ) (self : PolicyEnforcingToolGateway) (is : List Invocation)
      → All (λ i. int_leb i.grant.max_tool_calls (pos limit) ≡ true) is
      → calls_of self key ≤ limit
      → calls_of self key + returned key self is ≤ limit
  unfolding returned invoke
  returned-bound key limit self [] granted below = omega arith
  returned-bound key limit self (i ∷ is) (granted, rest) below =
      let (grows, still) = step_budget key limit self i _ refl granted below in
      let later = returned-bound key limit (invoke str_of self i).0 is rest still in omega arith
