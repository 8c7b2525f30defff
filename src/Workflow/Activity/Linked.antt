-- ===== src/Workflow/Activity/Linked.antt =====
-- The order and the links of the records of a run.
use provable_agent_reference.Base.{
  ℕ, suc, ◌≡◌, refl, ◌∙◌, String, true, List, [], ◌∷◌, Option, none, some, All, ◌<>◌, slice,
}
use provable_agent_reference.Errors.{ok, >>=-ok}
use provable_agent_reference.Json.{Value, Fields, int, str, obj, pos, end, ◌⇒◌⨾◌, is_json}
use provable_agent_reference.Json.Equality.{lookup, key_eq}
use provable_agent_reference.Json.Entries.{entry, payload_of}
use provable_agent_reference.Canonical.{Sha256}
use provable_agent_reference.Canonical.Binding.{uri, sha256_uri-ok}
use provable_agent_reference.Workflow.Activity.{
  ActivityRecordBuilder, Activity, record_fields, event_identity, hash_or_none, record_of, append,
  append_all,
}

-- Records in order from a sequence number, each naming the hash of the one before it and holding
-- the hash of its other entries.
abbrev pub IsLinked : ⦃H : Sha256⦄ → Option String → ℕ → List Value → Type 0
IsLinked previous n [] = Unit
IsLinked previous n (r ∷ rs) =
    (h : String) × (entry "sequence" r ≡ some (int (pos n)))
    × (entry "previous_event_hash" r ≡ some (hash_or_none previous))
    × (entry "record_hash" r ≡ some (str h))
    × (h ≡ uri (payload_of r))
    × IsLinked (some h) (suc n) rs

module _ ⦃H : Sha256⦄ (self : ActivityRecordBuilder) (a : Activity) where
  abbrev event_id : String
  event_id = "event_" <> slice 7 31 (uri (event_identity self a.event_type (uri a.body)))

  abbrev made_fields : Fields → Fields
  made_fields more = record_fields self a (uri a.body) event_id more

  abbrev made_hash : String
  made_hash = uri (obj (made_fields end))

  abbrev made : Value
  made = obj (made_fields ("record_hash" ⇒ str made_hash ⨾ end))

  hash_or_none-json : (h : Option String) → is_json (hash_or_none h) ≡ true
  unfolding is_json
  hash_or_none-json none = refl
  hash_or_none-json (some h) = refl

  made_fields-json : is_json a.body ≡ true → is_json (obj (made_fields end)) ≡ true
  unfolding is_json
  made_fields-json j = rw (hash_or_none-json self.previous_hash) (rw j refl)

  record_of-ok : is_json a.body ≡ true → record_of self a ≡ ok (made, made_hash)
  unfolding record_of is_json
  record_of-ok j =
      >>=-ok _ (sha256_uri-ok a.body j)
      ∙ (>>=-ok _ (sha256_uri-ok (event_identity self a.event_type (uri a.body)) refl)
          ∙ >>=-ok _ (sha256_uri-ok (obj (made_fields end)) (made_fields-json j)))

  abbrev after : ActivityRecordBuilder
  after = record self { sequence = suc self.sequence; previous_hash = some made_hash }

  append-ok : is_json a.body ≡ true → append self a ≡ ok (made, after)
  unfolding append
  append-ok j = >>=-ok _ (record_of-ok j)

-- Activities with serializable bodies, appended one after the other, are all recorded: each
-- record has the next sequence number, names the hash of the record before it, and holds the
-- hash of its other entries.
pub append_all-IsLinked :
    ⦃H : Sha256⦄ (self : ActivityRecordBuilder) (activities : List Activity)
    → All (λ a. is_json a.body ≡ true) activities
    → (rs : List Value) × (append_all self activities ≡ ok rs)
      × IsLinked self.previous_hash self.sequence rs
unfolding append_all lookup key_eq
append_all-IsLinked self [] h = ([], refl, tt)
append_all-IsLinked self (a ∷ more) (j, rest) =
    let (rs, e, linked) = append_all-IsLinked (after self a) more rest in
    (
      made self a ∷ rs,
      >>=-ok _ (append-ok self a j) ∙ >>=-ok _ e,
      (made_hash self a, refl, refl, refl, refl, linked),
    )
