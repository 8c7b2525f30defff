-- ===== src/Contracts/SemanticDraft.antt =====
-- The class SemanticDraft of src/provable_agent_reference/contracts.py.
use provable_agent_reference.Base.{
  String, Bool, true, ◌≡◌, ◌||◌, List, [], ◌∷◌, is_nil, length, ltb,
}
use provable_agent_reference.Errors.{Result, ok, contract_error, raise_if, ◌>>◌}
use provable_agent_reference.Json.{
  Value, str, bool, arr, obj, end, ◌⇒◌⨾◌, texts, texts-json, is_json, all_json,
}
use provable_agent_reference.Contracts.Validation.{identifier, bounded, unique}

pub record SemanticDraft : Type 0 where
  pub claim_text : String
  pub selected_evidence_id : String
  pub limitations : List String
  pub assurance_statement : String
  pub content_categories : List String
  pub redacted : Bool

-- `for value in limitations: _bounded(value, "limitation", 2000)`
unfoldable pub bounded_limitations : List String → Result (Unit {0})
bounded_limitations [] = ok tt
bounded_limitations (x ∷ xs) = bounded x "limitation" 2000 >> bounded_limitations xs

unfoldable pub post_init : SemanticDraft → Result (Unit {0})
post_init d = do
  bounded d.claim_text "claim_text" 4000
  identifier d.selected_evidence_id "selected_evidence_id"
  unique d.limitations "limitations"
  raise_if (is_nil d.limitations || ltb 20 (length d.limitations)) contract_error
      "limitations must contain between 1 and 20 items"
  bounded_limitations d.limitations
  unique d.content_categories "content_categories"
  raise_if (ltb 20 (length d.content_categories)) contract_error
      "content_categories must contain at most 20 items"
  bounded d.assurance_statement "assurance_statement" 8000

abbrev pub to_dict : SemanticDraft → Value
to_dict d = obj (
    "claim_text"
    ⇒ str d.claim_text ⨾ "selected_evidence_id"
    ⇒ str d.selected_evidence_id ⨾ "limitations"
    ⇒ arr (texts d.limitations) ⨾ "assurance_statement"
    ⇒ str d.assurance_statement ⨾ "content_categories"
    ⇒ arr (texts d.content_categories) ⨾ "redacted"
    ⇒ bool d.redacted ⨾ end)

pub to_dict-json : (d : SemanticDraft) → is_json (to_dict d) ≡ true
unfolding is_json all_json
to_dict-json d = rw (texts-json d.limitations) (rw (texts-json d.content_categories))
