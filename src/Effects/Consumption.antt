-- ===== src/Effects/Consumption.antt =====
-- How often an authorization is consumed, over any sequence of transitions that one
-- AuthorizationLifecycle of src/provable_agent_reference/synthetic_effects.py is asked for.
use text.Mathlib.TextEquality.{eq_iff}
use text.Mathlib.TextPositions.{eq_refl}
use provable_agent_reference.Base.{
  ℕ, ◌+◌, ◌≤◌, ◌≡◌, refl, sym, ap, ◌∙◌, String, true, false, ◌&&◌, ◌==◌, if◌then◌else◌, List, [],
  ◌∷◌, Option, get, put, get-put_same, get-put_other, ◌⊎◌, inl, inr, Bool-cases, arith, &&-eq-true,
  &&-intro,
}
use provable_agent_reference.Errors.{
  Result, ok, err, raise_if, require_that, >>=-eq-ok, >>-eq-ok, raise_if-ok, permission_error,
}
use provable_agent_reference.Canonical.{Sha256}
use provable_agent_reference.Json.{Value}
use provable_agent_reference.Contracts.AuthorizationResult.{AuthorizationResult}
use provable_agent_reference.Effects.Lifecycle.{
  AuthorizationLifecycle, transition, transition_allowed, transitioned, is_some, genuine,
}

-- One call of `transition`.
pub record Request : Type 0 where
  pub authorization : AuthorizationResult
  pub status : String
  pub effective_at : String
  pub successor_ref : Option String

abbrev pub consumes : String → Request → Result Value → ℕ
consumes identity r (ok body) =
    if r.authorization.authorization_id == identity && r.status == "consumed" then 1 else 0
consumes identity r (err e m) = 0

module _ ⦃H : Sha256⦄ where
  abbrev pub ask : AuthorizationLifecycle → Request → AuthorizationLifecycle × Result Value
  ask self r = transition self r.authorization r.status r.effective_at r.successor_ref

  -- How many of the calls, made one after the other, returned and consumed the authorization.
  unfoldable pub consumptions : String → AuthorizationLifecycle → List Request → ℕ
  consumptions identity self [] = 0
  consumptions identity self (r ∷ rs) =
      let answer = ask self r in consumes identity r answer.1 + consumptions identity answer.0 rs

  text_same_trans : (i j k : String) → (i == j) ≡ true → (k == j) ≡ true → (i == k) ≡ true
  text_same_trans i j k h g =
      ap (λ x. x == k) ((eq_iff i j).0 h ∙ sym ((eq_iff k j).0 g)) ∙ eq_refl k

  -- A status, once there, stays there, if not the same one.
  put-is_some :
      (identity other status : String) (states : List (String × String))
      → is_some (get ◌==◌ identity states) ≡ true
      → is_some (get ◌==◌ identity (put ◌==◌ other status states)) ≡ true
  put-is_some identity other status states h = elim (Bool-cases (identity == other)) [
    | inl e ↦
        rw ((eq_iff identity other).0 e)
          (ap is_some (get-put_same ◌==◌ eq_refl other status states))
    | inr e ↦ ap is_some (get-put_other ◌==◌ text_same_trans identity other status states e) ∙ h
  ]

  -- What `transition` allows does not consume an authorization that has a status.
  allowed-fresh :
      (self : AuthorizationLifecycle) (r : Request)
      → transition_allowed self r.authorization r.status r.successor_ref ≡ ok tt
      → (r.status == "consumed" && is_some (get ◌==◌ r.authorization.authorization_id self.states))
        ≡ false
  unfolding transition_allowed
  allowed-fresh self r h =
      let (valid, _, h₁) = >>=-eq-ok (genuine r.authorization) _ h in
      let (_, h₂) = >>-eq-ok (require_that valid permission_error _) _ h₁ in
      let (fresh, _) = >>-eq-ok (raise_if _ permission_error _) _ h₂ in raise_if-ok _ _ _ fresh

  abbrev after :
      AuthorizationLifecycle → Request → Result (Unit {0}) → AuthorizationLifecycle × Result Value
  after self r check =
      transitioned self r.authorization r.status r.effective_at r.successor_ref check

  used_step :
      (identity : String) (self : AuthorizationLifecycle) (r : Request) (check : Result (Unit {0}))
      → transition_allowed self r.authorization r.status r.successor_ref ≡ check
      → is_some (get ◌==◌ identity self.states) ≡ true
      → (consumes identity r (after self r check).1 ≡ 0)
        × (is_some (get ◌==◌ identity (after self r check).0.states) ≡ true)
  used_step identity self r (err e m) allowed h = (refl, h)
  used_step identity self r (ok tt) allowed h = (
    elim (Bool-cases (r.authorization.authorization_id == identity && r.status == "consumed")) [
      | inl e ↦
          let (same, used) = &&-eq-true {a = r.authorization.authorization_id == identity} e in
          let fresh = allowed-fresh self r allowed in
          let known : is_some (get ◌==◌ r.authorization.authorization_id self.states) ≡ true =
            ap (λ x. is_some (get ◌==◌ x self.states)) ((eq_iff _ identity).0 same) ∙ h in
          let clash = sym (&&-intro used known) ∙ fresh in cc
      | inr e ↦ rw e refl
    ],
    put-is_some identity r.authorization.authorization_id r.status self.states h,
  )

  fresh_step :
      (identity : String) (self : AuthorizationLifecycle) (r : Request) (check : Result (Unit {0}))
      → (consumes identity r (after self r check).1 ≡ 0)
        ⊎ ((consumes identity r (after self r check).1 ≡ 1)
            × (is_some (get ◌==◌ identity (after self r check).0.states) ≡ true))
  fresh_step identity self r (err e m) = inl refl
  fresh_step identity self r (ok tt) =
      elim (Bool-cases (r.authorization.authorization_id == identity && r.status == "consumed")) [
        | inl e ↦
            let (same, _) = &&-eq-true {a = r.authorization.authorization_id == identity} e in
            inr (
              ap (λ b. if b then 1 else 0) e,
              rw (← (eq_iff r.authorization.authorization_id identity).0 same) (
                  ap is_some (
                    get-put_same ◌==◌ eq_refl r.authorization.authorization_id r.status
                      self.states)),
            )
        | inr e ↦ inl (ap (λ b. if b then 1 else 0) e)
      ]

  -- Once an authorization has a status, no sequence of calls consumes it.
  pub used-consumptions :
      (identity : String) (self : AuthorizationLifecycle) (rs : List Request)
      → is_some (get ◌==◌ identity self.states) ≡ true
      → consumptions identity self rs ≡ 0
  unfolding consumptions transition
  used-consumptions identity self [] h = refl
  used-consumptions identity self (r ∷ rs) h =
      let (none_now, still) = used_step identity self r _ refl h in
      let later = used-consumptions identity (ask self r).0 rs still in rw (none_now, later) refl

  -- Over any sequence of calls of transition on a lifecycle, refused calls included, the
  -- calls that return and consume one authorization are at most one.
  pub consumptions-bound :
      (identity : String) (self : AuthorizationLifecycle) (rs : List Request)
      → consumptions identity self rs ≤ 1
  unfolding consumptions transition
  consumptions-bound identity self [] = omega arith
  consumptions-bound identity self (r ∷ rs) =
      elim (fresh_step identity self r
        (transition_allowed self r.authorization r.status r.successor_ref)) [
          | inl none_now ↦ let later = consumptions-bound identity (ask self r).0 rs in omega arith
          | inr (once, used) ↦
              let later = used-consumptions identity (ask self r).0 rs used in omega arith
        ]
