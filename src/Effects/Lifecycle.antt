-- ===== src/Effects/Lifecycle.antt =====
-- AuthorizationLifecycle of src/provable_agent_reference/synthetic_effects.py: which transitions an
-- authorization takes.
use text.Mathlib.TextEquality.{eq_iff}
use text.Mathlib.TextPositions.{eq_refl}
use provable_agent_reference.Base.{
  String, Bool, true, false, not, ◌&&◌, ◌==◌, if◌then◌else◌, List, [], ◌∷◌, Option, none, some,
  member, is_empty, get, put, ◌<>◌, Bool-cases, inl, inr, ◌≡◌, sym, ap, ◌∙◌,
}
use provable_agent_reference.Errors.{
  Result, ok, err, permission_error, value_error, raise_if, require_that, ◌>>=◌, ◌>>◌, ok-injective,
}
use provable_agent_reference.Json.{Value, null, str, obj, end, ◌⇒◌⨾◌}
use provable_agent_reference.Canonical.{Sha256}
use provable_agent_reference.Canonical.Binding.{uri}
use provable_agent_reference.Contracts.AuthorizationResult
use provable_agent_reference.Contracts.AuthorizationResult.{AuthorizationResult}

-- `_states`: the status of each authorization that had a transition.
pub record AuthorizationLifecycle : Type 0 where
  pub states : List (String × String)

abbrev pub authorization_lifecycle : AuthorizationLifecycle
authorization_lifecycle = record { states = [] }

abbrev pub is_some : Option String → Bool
is_some none = false
is_some (some s) = true

-- `not successor_ref`
abbrev pub is_missing : Option String → Bool
is_missing none = true
is_missing (some s) = is_empty s

-- A text or None.
abbrev pub optional : Option String → Value
optional none = null
optional (some s) = str s

abbrev pub statuses : List String
statuses = "consumed" ∷ "revoked" ∷ "superseded" ∷ []

abbrev pub lifecycle_body : AuthorizationResult → String → String → Option String → Value
lifecycle_body z status effective_at successor_ref = obj (
    "body_type"
    ⇒ str "lifecycle_status" ⨾ "target_id"
    ⇒ str z.authorization_id ⨾ "target_hash"
    ⇒ str z.record_hash ⨾ "status"
    ⇒ str status ⨾ "authority"
    ⇒ obj (
        "subject"
        ⇒ str "control-plane:synthetic" ⨾ "issuer"
        ⇒ str "synthetic://local-test-issuer" ⨾ "actor_type"
        ⇒ str "control_plane" ⨾ end) ⨾
      "effective_at"
    ⇒ str effective_at ⨾ "reason"
    ⇒ str ("Synthetic authorization " <> status <> ".") ⨾ "successor_ref"
    ⇒ optional successor_ref ⨾ end)

module _ ⦃H : Sha256⦄ where
  -- `authorization.authorized and authorization.verify_hash()`
  unfoldable pub genuine : AuthorizationResult → Result Bool
  genuine z = if z.authorized then AuthorizationResult.verify_hash z else ok false

  -- The guards of `transition`, before it changes anything.
  unfoldable pub transition_allowed :
      AuthorizationLifecycle → AuthorizationResult → String → Option String → Result (Unit {0})
  transition_allowed self z status successor_ref = do
    valid ← genuine z
    require_that valid permission_error "authorization is invalid or denied"
    raise_if (status == "consumed" && is_some (get ◌==◌ z.authorization_id self.states))
        permission_error "authorization is no longer consumable"
    require_that (member status statuses) value_error "unsupported synthetic lifecycle transition"
    raise_if (status == "superseded" && is_missing successor_ref) value_error
        "supersession requires a successor reference"
    raise_if (not (status == "superseded") && is_some successor_ref) value_error
        "successor reference is exclusive to supersession"

  abbrev pub transitioned :
      AuthorizationLifecycle
      → AuthorizationResult
      → String
      → String
      → Option String
      → Result (Unit {0})
      → AuthorizationLifecycle × Result Value
  transitioned self z status effective_at successor_ref (ok tt) = (
    record self { states = put ◌==◌ z.authorization_id status self.states },
    ok (lifecycle_body z status effective_at successor_ref),
  )
  transitioned self z status effective_at successor_ref (err e m) = (self, err e m)

  unfoldable pub transition :
      AuthorizationLifecycle
      → AuthorizationResult
      → String
      → String
      → Option String
      → AuthorizationLifecycle × Result Value
  transition self z status effective_at successor_ref =
      transitioned self z status effective_at successor_ref
        (transition_allowed self z status successor_ref)

  genuine-eq :
      (z : AuthorizationResult)
      → z.authorized ≡ true
      → genuine z ≡ ok (z.record_hash == uri (AuthorizationResult.payload z))
  unfolding genuine
  genuine-eq z e =
      ap (λ b. if b then AuthorizationResult.verify_hash z else ok false) e
      ∙ AuthorizationResult.verify_hash-eq z

  pub genuine-inv :
      (z : AuthorizationResult)
      → genuine z ≡ ok true
      → (z.authorized ≡ true) × (z.record_hash ≡ uri (AuthorizationResult.payload z))
  unfolding genuine
  genuine-inv z h = elim (Bool-cases z.authorized) [
    | inl e ↦ (e, (eq_iff _ _).0 (ok-injective (sym (genuine-eq z e) ∙ h)))
    | inr e ↦
        let clash : ok false ≡ ok true =
          sym (ap (λ b. if b then AuthorizationResult.verify_hash z else ok false) e) ∙ h in
        cc
  ]

  pub genuine-ok :
      (z : AuthorizationResult)
      → z.authorized ≡ true
      → z.record_hash ≡ uri (AuthorizationResult.payload z)
      → genuine z ≡ ok true
  genuine-ok z e h =
      genuine-eq z e ∙ ap ok (ap (λ u. z.record_hash == u) (sym h) ∙ eq_refl z.record_hash)
