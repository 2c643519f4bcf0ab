-- ===== src/Agent/Prompts.antt =====
-- Prompt templates (src/agent/prompts.rs, and src/agent/mod.rs for the variables of a prompt). The
-- tables of Unicode are a record of two tests on characters. `read_file dir key` is the text of the
-- file of a key, where the directory has one that can be read.
pub mod Parts
use Prim.Native.Char.{Char, code}
use Prim.Native.String.{◌++◌, count}
use jeeves_core.Prelude.{
  ℕ, zero, suc, ◌-◌, String, Bool, true, false, not, ◌&&◌, ◌||◌, Option, none, some, map_option,
  unwrap_or, List, [], ◌∷◌, is_eq, if◌then◌else◌,
}
use jeeves_core.Prelude.Dict
use jeeves_core.Prelude.Dict.{Dict}
use jeeves_core.Json.{Value, null, boolean, integer, fraction, string, array, object}
use jeeves_core.Types.{PromptKey}
use jeeves_core.Agent.{AgentContext, Texts}

pub record CharTests : Type 0 where
  pub is_alphabetic : Char → Bool
  pub is_alphanumeric : Char → Bool

pub record PromptRegistry : Type 0 where
  pub base_dir : Option String
  pub overrides : Dict String

abbrev pub from_dir : String → PromptRegistry
from_dir dir = record { base_dir = some dir; overrides = [] }

abbrev pub empty : PromptRegistry
empty = record { base_dir = none; overrides = [] }

unfoldable pub insert : PromptKey → String → PromptRegistry → PromptRegistry
insert key template r = record r { overrides = Dict.insert r.overrides key template }

unfoldable pub load :
    (String → PromptKey → Option String) → PromptKey → PromptRegistry → Option String
load read_file key r = elim (Dict.get r.overrides key) [
  | some t ↦ some t
  | none ↦ elim r.base_dir [ none ↦ none | some base ↦ read_file base key ]
]

abbrev pub is_char : ℕ → Char → Bool
is_char n c = is_eq n (code c)

-- `str::starts_with`.
unfoldable pub is_prefix : String → String → Bool
is_prefix String.[] s = true
is_prefix (String.◌∷◌ c p) String.[] = false
is_prefix (String.◌∷◌ c p) (String.◌∷◌ d s) = is_char (code c) d && is_prefix p s

-- `str::replace` of a pattern that is not empty: the occurrences from left to right, where the
-- search goes on behind an occurrence. The first `n` characters belong to one that was replaced.
unfoldable pub replace_from : String → String → ℕ → String → String
unfolding is_prefix
replace_from p v n String.[] = String.[]
replace_from p v (suc n) (String.◌∷◌ c s) = replace_from p v n s
replace_from p v zero (String.◌∷◌ c s) =
    let found = v ++ replace_from p v (count p - 1) s in
    let other = String.◌∷◌ c (replace_from p v zero s) in
    if is_prefix p (String.◌∷◌ c s) then found else other

abbrev pub placeholder : String → String
placeholder key = "{" ++ (key ++ "}")

-- The loop over the variables.
unfoldable pub substitute : Dict String → String → String
unfolding replace_from
substitute [] s = s
substitute ((key, value) ∷ vars) s = substitute vars (replace_from (placeholder key) value 0 s)

module _ (t : CharTests) where
  -- `chars().all(…)`.
  unfoldable pub all_word : String → Bool
  all_word String.[] = true
  all_word (String.◌∷◌ c s) = (t.is_alphanumeric c || is_char b'_' c) && all_word s

  unfoldable pub is_identifier : String → Bool
  unfolding all_word
  is_identifier String.[] = false
  is_identifier (String.◌∷◌ c s) =
      all_word (String.◌∷◌ c s) && (t.is_alphabetic c || is_char b'_' c)

  -- What is written for a pair of braces.
  unfoldable pub closed : String → String
  unfolding is_identifier
  closed var = if is_identifier var then "" else placeholder var

  -- The scan: outside of braces, or behind an open brace with what was read since.
  unfoldable pub strip : Option String → String → String
  unfolding closed
  strip none String.[] = String.[]
  strip (some var) String.[] = "{" ++ var
  strip none (String.◌∷◌ c s) = elim (is_char b'{' c) [
    | true ↦ strip (some "") s
    | false ↦ String.◌∷◌ c (strip none s)
  ]
  strip (some var) (String.◌∷◌ c s) = elim (is_char b'}' c) [
    | true ↦ closed var ++ strip none s
    | false ↦ strip (some (var ++ String.◌∷◌ c String.[])) s
  ]

  abbrev pub strip_unresolved_vars : String → String
  strip_unresolved_vars s = strip none s

  unfoldable pub render_template : String → Dict String → String
  unfolding substitute strip
  render_template template vars = strip_unresolved_vars (substitute vars template)

  unfoldable pub render :
      (String → PromptKey → Option String)
      → PromptKey
      → Dict String
      → PromptRegistry
      → Option String
  unfolding load render_template
  render read_file key vars r =
      map_option (λ template. render_template template vars) (load read_file key r)

-- `value_to_string`.
unfoldable pub value_to_string : Texts → Value → String
value_to_string t (string s) = s
value_to_string t null = t.json null
value_to_string t (boolean b) = t.json (boolean b)
value_to_string t (integer n) = t.json (integer n)
value_to_string t (fraction s) = t.json (fraction s)
value_to_string t (array vs) = t.json (array vs)
value_to_string t (object fs) = t.json (object fs)

-- The loops that fill the variables of a prompt.
unfoldable pub insert_values : Texts → Dict Value → Dict String → Dict String
unfolding value_to_string
insert_values t [] vars = vars
insert_values t ((key, value) ∷ d) vars =
    insert_values t d (Dict.insert vars key (value_to_string t value))

unfoldable pub insert_output : Texts → String → Dict Value → Dict String → Dict String
unfolding value_to_string
insert_output t agent [] vars = vars
insert_output t agent ((key, value) ∷ d) vars =
    insert_output t agent d (Dict.insert vars (agent ++ ("_" ++ key)) (value_to_string t value))

unfoldable pub insert_outputs : Texts → Dict (Dict Value) → Dict String → Dict String
unfolding insert_output
insert_outputs t [] vars = vars
insert_outputs t ((agent, output) ∷ d) vars = insert_outputs t d (insert_output t agent output vars)

unfoldable pub prompt_vars : Texts → AgentContext → Dict String
unfolding insert_values insert_outputs
prompt_vars t ctx =
    insert_values t ctx.metadata
      (insert_values t ctx.state (insert_outputs t ctx.outputs (("raw_input", ctx.raw_input) ∷ [])))

-- The text of the system message.
unfoldable pub prompt_text :
    CharTests
    → (String → PromptKey → Option String)
    → Texts
    → PromptKey
    → PromptRegistry
    → AgentContext
    → String
unfolding render prompt_vars
prompt_text tests read_file t key r ctx =
    unwrap_or ("No prompt found for key: " ++ key)
      (render tests read_file key (prompt_vars t ctx) r)
