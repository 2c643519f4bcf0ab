-- ===== src/Run/Updates.antt =====
-- Updates that are merged into a run (src/run/mod.rs, `merge_updates`).
use jeeves_core.Prelude.{
  String, ◌≡◌, refl, ◌∙◌, inl, inr, Option, none, some, [], ◌∷◌, ◌==◌, Bool-cases, Option-cases,
  if◌then◌else◌,
}
use jeeves_core.Prelude.Dict
use jeeves_core.Prelude.Dict.{Dict}
use jeeves_core.Json.{Value, null, boolean, integer, fraction, string, array, object}
use jeeves_core.Run.{Run, insert_all, validate}

-- `serde_json::from_value` on the value of `outputs` is the argument `read_outputs`.
module _ (read_outputs : Value → Option (Dict (Dict Value))) where
  merge_raw_input : Value → Run → Run
  merge_raw_input (string s) r = record r { raw_input = s }
  merge_raw_input _ r = r

  merge_metadata : Value → Run → Run
  merge_metadata (object fs) r = record r {
    audit = record r.audit { metadata = insert_all r.audit.metadata fs };
  }
  merge_metadata _ r = r

  -- The loop over the agents: `outputs.entry(agent).or_default().extend(output)`.
  merge_outputs : Dict (Dict Value) → Dict (Dict Value) → Dict (Dict Value)
  merge_outputs outputs [] = outputs
  merge_outputs outputs ((agent, output) ∷ rest) =
      merge_outputs
        (Dict.insert outputs agent
          (Dict.extend (elim (Dict.get outputs agent) [ none ↦ [] | some d ↦ d ]) output))
        rest

  merge_update : String → Value → Run → Run
  unfolding merge_raw_input merge_metadata merge_outputs
  merge_update key value r =
      if key == "raw_input"
      then merge_raw_input value r
      else if key == "metadata"
      then merge_metadata value r
      else if key == "outputs"
      then elim (read_outputs value) [
        | none ↦ r
        | some m ↦ record r { outputs = merge_outputs r.outputs m }
      ]
      else record r { audit = record r.audit { metadata = Dict.insert r.audit.metadata key value } }

  pub merge_updates : Dict Value → Run → Run
  unfolding merge_update
  merge_updates [] r = r
  merge_updates ((k, v) ∷ updates) r = merge_updates updates (merge_update k v r)

  -- What `validate` says of a run does not depend on its input, outputs and metadata.
  raw_input-validate : (v : Value) (r : Run) → validate (merge_raw_input v r) ≡ validate r
  unfolding merge_raw_input validate
  raw_input-validate (string s) r = refl
  raw_input-validate null r = refl
  raw_input-validate (boolean b) r = refl
  raw_input-validate (integer z) r = refl
  raw_input-validate (fraction s) r = refl
  raw_input-validate (array vs) r = refl
  raw_input-validate (object fs) r = refl

  metadata-validate : (v : Value) (r : Run) → validate (merge_metadata v r) ≡ validate r
  unfolding merge_metadata validate
  metadata-validate (string s) r = refl
  metadata-validate null r = refl
  metadata-validate (boolean b) r = refl
  metadata-validate (integer z) r = refl
  metadata-validate (fraction s) r = refl
  metadata-validate (array vs) r = refl
  metadata-validate (object fs) r = refl

  merge_update-validate :
      (key : String) (v : Value) (r : Run) → validate (merge_update key v r) ≡ validate r
  unfolding merge_update validate
  merge_update-validate key v r = elim (Bool-cases (key == "raw_input")) [
    | inl e ↦ rw (merge_update, e) (raw_input-validate v r)
    | inr e ↦ elim (Bool-cases (key == "metadata")) [
      | inl f ↦ rw (merge_update, e, f) (metadata-validate v r)
      | inr f ↦ elim (Bool-cases (key == "outputs")) [
        | inl g ↦ elim (Option-cases (read_outputs v)) [
          | inl h ↦ rw (merge_update, e, f, g, h) refl
          | inr (m, h) ↦ rw (merge_update, e, f, g, h) refl
        ]
        | inr g ↦ rw (merge_update, e, f, g) refl
      ]
    ]
  ]

  -- Merging updates changes nothing that `validate` looks at.
  pub merge_updates-validate :
      (updates : Dict Value) (r : Run) → validate (merge_updates updates r) ≡ validate r
  unfolding merge_updates
  merge_updates-validate [] r = refl
  merge_updates-validate ((k, v) ∷ updates) r =
      merge_updates-validate updates (merge_update k v r) ∙ merge_update-validate k v r
