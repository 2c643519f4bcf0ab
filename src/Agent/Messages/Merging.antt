-- ===== src/Agent/Messages/Merging.antt =====
-- What the parts of tool calls are merged to (src/agent/llm/mod.rs, `merge_tool_call_deltas`).
use Prim.Native.String.{◌++◌}
use jeeves_core.Prelude.{
  ℕ, zero, suc, ◌≤◌, String, ◌≡◌, ◌≢◌, refl, sym, ap, subst, ◌∙◌, inl, inr, not, List, [], ◌∷◌,
  filter, length, length-filter, arith, ◌==◌, eq_iff, Bool-cases, if◌then◌else◌,
}
use jeeves_core.Json.{Value}
use jeeves_core.Agent.Messages.{
  ToolCall, merge_arguments, merge_call, merge_delta, merge_tool_call_deltas,
}

-- The parts with an identifier, and the parts with another.
abbrev pub same : String → List ToolCall → List ToolCall
same id cs = filter (λ c. id == c.id) cs

abbrev pub others : String → List ToolCall → List ToolCall
others id cs = filter (λ c. not (id == c.id)) cs

-- The first name that is not empty.
abbrev pub first_name : List ToolCall → String
first_name [] = ""
first_name (c ∷ cs) = if c.name == "" then first_name cs else c.name

-- A text is appended to a text, and any other value takes the place of what was before.
abbrev pub appended : Value → Value → Value
appended (Value.string a) (Value.string b) = Value.string (a ++ b)
appended (Value.string a) Value.null = Value.null
appended (Value.string a) (Value.boolean b) = Value.boolean b
appended (Value.string a) (Value.integer n) = Value.integer n
appended (Value.string a) (Value.fraction s) = Value.fraction s
appended (Value.string a) (Value.array vs) = Value.array vs
appended (Value.string a) (Value.object fs) = Value.object fs
appended Value.null v = v
appended (Value.boolean b) v = v
appended (Value.integer n) v = v
appended (Value.fraction s) v = v
appended (Value.array vs) v = v
appended (Value.object fs) v = v

abbrev pub all_arguments : Value → List ToolCall → Value
all_arguments v [] = v
all_arguments v (c ∷ cs) = all_arguments (appended v c.arguments) cs

-- A call of a first part and of the later parts with its identifier.
abbrev pub whole : ToolCall → List ToolCall → ToolCall
whole c cs = record {
  id = c.id;
  name = first_name (c ∷ cs);
  arguments = all_arguments c.arguments cs;
}

-- What parts of calls are merged to, in the order of first parts: each identifier has one call, of
-- all the parts that have it; and a part without an identifier is a call of its own.
pub data Merged : List ToolCall → List ToolCall → Type 0 where
  finished : Merged [] []
  alone :
      {c : ToolCall} {cs ms : List ToolCall} → c.id ≡ "" → Merged cs ms → Merged (c ∷ cs) (c ∷ ms)
  united :
      {c : ToolCall} {cs ms : List ToolCall}
      → c.id ≢ ""
      → Merged (others c.id cs) ms
      → Merged (c ∷ cs) (whole c (same c.id cs) ∷ ms)

merge_arguments-appended : (v w : Value) → merge_arguments v w ≡ appended v w
merge_arguments-appended (Value.string a) (Value.string b) = refl
merge_arguments-appended (Value.string a) Value.null = refl
merge_arguments-appended (Value.string a) (Value.boolean b) = refl
merge_arguments-appended (Value.string a) (Value.integer n) = refl
merge_arguments-appended (Value.string a) (Value.fraction s) = refl
merge_arguments-appended (Value.string a) (Value.array vs) = refl
merge_arguments-appended (Value.string a) (Value.object fs) = refl
merge_arguments-appended Value.null w = refl
merge_arguments-appended (Value.boolean b) w = refl
merge_arguments-appended (Value.integer n) w = refl
merge_arguments-appended (Value.fraction s) w = refl
merge_arguments-appended (Value.array vs) w = refl
merge_arguments-appended (Value.object fs) w = refl

merge_calls : ToolCall → List ToolCall → ToolCall
unfolding merge_call
merge_calls c [] = c
merge_calls c (d ∷ ds) = merge_calls (merge_call c d) ds

merge_calls-whole : (c : ToolCall) (ds : List ToolCall) → merge_calls c ds ≡ whole c ds
unfolding merge_calls merge_call
merge_calls-whole c [] = ap (λ n. record c { name = n }) (ground (arith, eq_iff c.name ""))
merge_calls-whole c (d ∷ ds) =
    merge_calls-whole (merge_call c d) ds
    ∙ ap (λ n. record (whole (merge_call c d) ds) { name = n })
        (ground (arith, eq_iff c.name "", eq_iff d.name ""))
    ∙ ap (λ v. record (whole c (d ∷ ds)) { arguments = all_arguments v ds })
        (merge_arguments-appended c.arguments d.arguments)

-- Behind a call without an identifier, and behind one with its own.
merge-alone :
    (c : ToolCall) (acc ds : List ToolCall)
    → c.id ≡ ""
    → merge_tool_call_deltas (c ∷ acc) ds ≡ c ∷ merge_tool_call_deltas acc ds
unfolding merge_tool_call_deltas merge_delta
merge-alone c acc [] e = refl
merge-alone c acc (d ∷ ds) e =
    let kept : merge_delta (c ∷ acc) d ≡ c ∷ merge_delta acc d =
      ground (arith, e, eq_iff c.id d.id, eq_iff d.id "") in
    ap (λ x. merge_tool_call_deltas x ds) kept ∙ merge-alone c (merge_delta acc d) ds e

merge-united :
    (c : ToolCall) (acc ds : List ToolCall)
    → c.id ≢ ""
    → merge_tool_call_deltas (c ∷ acc) ds
      ≡ merge_calls c (same c.id ds) ∷ merge_tool_call_deltas acc (others c.id ds)
unfolding merge_tool_call_deltas merge_delta merge_calls merge_call filter
merge-united c acc [] e = refl
merge-united c acc (d ∷ ds) e = elim (Bool-cases (c.id == d.id)) [
  | inl q ↦
      let hit : merge_delta (c ∷ acc) d ≡ merge_call c d ∷ acc =
        ground (arith, e, q, eq_iff c.id d.id, eq_iff d.id "") in
      ap (λ x. merge_tool_call_deltas x ds) hit ∙ rw q (merge-united (merge_call c d) acc ds e)
  | inr q ↦
      let miss : merge_delta (c ∷ acc) d ≡ c ∷ merge_delta acc d = ground (arith, q) in
      ap (λ x. merge_tool_call_deltas x ds) miss ∙ rw q (merge-united c (merge_delta acc d) ds e)
]

merge-Merged_upto :
    (n : ℕ) (cs : List ToolCall) → length cs ≤ n → Merged cs (merge_tool_call_deltas [] cs)
unfolding merge_tool_call_deltas merge_delta
merge-Merged_upto n [] l = finished
merge-Merged_upto zero (c ∷ cs) l = absurd (omega (arith, l))
merge-Merged_upto (suc n) (c ∷ cs) l = elim (Bool-cases (c.id == "")) [
  | inl q ↦
      let e = (eq_iff c.id "").0 q in
      subst (Merged (c ∷ cs)) (sym (merge-alone c [] cs e))
        (alone e (merge-Merged_upto n cs (omega (arith, l))))
  | inr q ↦
      let e : c.id ≢ "" = λ p. ground (arith, q, eq_iff c.id "", p) in
      let shorter = length-filter (λ d. not (c.id == d.id)) cs in
      subst (Merged (c ∷ cs))
        (sym (
          merge-united c [] cs e
          ∙ ap (λ w. w ∷ merge_tool_call_deltas [] (others c.id cs))
              (merge_calls-whole c (same c.id cs))))
        (united e (merge-Merged_upto n (others c.id cs) (omega (arith, l, shorter))))
]

pub merge-Merged : (cs : List ToolCall) → Merged cs (merge_tool_call_deltas [] cs)
merge-Merged cs = merge-Merged_upto (length cs) cs (omega arith)
