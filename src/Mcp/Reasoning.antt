-- ===== src/Mcp/Reasoning.antt =====
-- What is stored as the reasoning of an agent's decision (`buildReasoningJSON` of mcp.go).
use jitsudo.Prelude.{
  ◌≡◌, refl, ap, ◌∙◌, ◌⊎◌, eq_iff, true, false, some, String, str_eq, List, [], ◌∷◌, inl, inr,
  Bool-cases, Option-cases,
}
use jitsudo.Mcp.{build_reasoning_json}
use jitsudo.Mcp.Messages.{Arguments, Encoding}

-- What the server relies on of encoding/json: what it writes is valid.
pub record WritesJson (enc : Encoding) : Type 0 where
  pub arguments :
      (args : Arguments) (text : String)
      → enc.marshal_arguments args ≡ some text
      → enc.is_valid text ≡ true
  pub strings : (m : List (String × String)) → enc.is_valid (enc.marshal_strings m) ≡ true
  pub empty_object : enc.is_valid "{}" ≡ true
  pub empty_text : enc.is_valid "" ≡ false

-- The reasoning stored for a decision is always a valid JSON document, whatever an agent sends or
-- leaves out, and a reasoning that is one already is stored letter for letter.
pub build_reasoning_json_valid :
    (enc : Encoding) (reasoning : String) (args : Arguments)
    → WritesJson enc
    → (enc.is_valid (build_reasoning_json enc reasoning args) ≡ true)
      × ((build_reasoning_json enc reasoning args ≡ reasoning) ⊎ (enc.is_valid reasoning ≡ false))
unfolding build_reasoning_json
build_reasoning_json_valid enc reasoning args json = elim (Bool-cases (str_eq reasoning "")) [
  | inl missing ↦
      let unread = ap enc.is_valid ((eq_iff reasoning "").0 missing) ∙ json.empty_text in
      elim (Option-cases (enc.marshal_arguments args)) [
        | inl failed ↦ rw (missing, failed) (json.empty_object, inr unread)
        | inr (text, marshalled) ↦
            rw (missing, marshalled) (json.arguments args text marshalled, inr unread)
      ]
  | inr given ↦ elim (Bool-cases (enc.is_valid reasoning)) [
    | inl document ↦ rw (given, document) (document, inl refl)
    | inr prose ↦ rw (given, prose) (json.strings (("reasoning", reasoning) ∷ []), inr refl)
  ]
]
