-- ===== src/Workflow/Validity.antt =====
-- What `Workflow::validate` accepts (src/workflow/mod.rs): the checks of its loops, stated on the
-- workflow alone.
pub mod Checks
pub mod Names
pub mod Accepted
use jeeves_core.Prelude.{
  String, ◌≡◌, refl, sym, subst, ap, ◌∙◌, ◌≢◌, ◌↔◌, ◌⊎◌, inl, inr, Bool, true, false, not, Option,
  none, some, is_some, List, [], ◌∷◌, map, arith, ◌==◌, eq_iff, All, Bool-cases, if◌then◌else◌,
}
use jeeves_core.Prelude.Int.{ℤ, pos, ◌<ℤ◌}
use jeeves_core.Types.{
  Error, Result, ok, err, >>=-eq-ok, >>-eq-ok, ◌>>=◌, ◌>>◌, reject_if, is_empty, StageName,
}
use jeeves_core.Workflow.{
  Stage, StateField, Workflow, contains, not_positive, add_output_key, collect_names,
  check_self_loop, check_target, check_positive, validate_stage, validate_stages, validate_schema,
  is_nil, validate,
}

-- The text stands in the list.
abbrev pub In : String → List String → Type 0
In a [] = ⊥
In a (x ∷ xs) = (x ≡ a) ⊎ In a xs

-- No text stands in the list twice.
abbrev pub Distinct : List String → Type 0
Distinct [] = Unit
Distinct (x ∷ xs) = (¬ In x xs) × Distinct xs

-- What an optional field must satisfy where it is set.
abbrev pub OnSome {ℓ κ} : {A : Type ℓ} → (A → Type κ) → Option A → Type κ
OnSome P none = Unit
OnSome P (some a) = P a

abbrev pub names : List Stage → List String
names [] = []
names (s ∷ rest) = s.name ∷ names rest

abbrev pub with_key : Option String → List String → List String
with_key none ks = ks
with_key (some k) ks = k ∷ ks

abbrev pub output_keys : List Stage → List String
output_keys [] = []
output_keys (s ∷ rest) = with_key s.output_key (output_keys rest)

abbrev pub state_keys : List StateField → List String
state_keys [] = []
state_keys (f ∷ rest) = f.key ∷ state_keys rest

pub record StageIsValid (known : List String) (s : Stage) : Type 0 where
  pub has_agent : s.agent ≢ ""
  pub no_bare_loop : OnSome (λ t. t ≡ s.name → is_some s.max_visits ≡ true) s.default_next
  pub default_known : OnSome (λ t. In t known) s.default_next
  pub error_known : OnSome (λ t. In t known) s.error_next
  pub visits_positive : OnSome (λ v. pos 0 <ℤ v) s.max_visits
  pub context_positive : OnSome (λ v. pos 0 <ℤ v) s.max_context_tokens

pub record IsValid (w : Workflow) : Type 0 where
  pub named : w.name ≢ ""
  pub has_stage : w.stages ≢ []
  pub iterations_positive : pos 0 <ℤ w.max_iterations
  pub llm_calls_positive : pos 0 <ℤ w.max_llm_calls
  pub agent_hops_positive : pos 0 <ℤ w.max_agent_hops
  pub names_nonempty : All (λ s. s.name ≢ "") w.stages
  pub names_distinct : Distinct (names w.stages)
  pub output_keys_distinct : Distinct (output_keys w.stages)
  pub stages_valid : All (StageIsValid (names w.stages)) w.stages
  pub state_keys_distinct : Distinct (state_keys w.state_schema)

pub contains→In : (xs : List String) (a : String) → contains xs a ≡ true → In a xs
unfolding contains
contains→In [] a h = cc
contains→In (x ∷ xs) a h = ground (arith, eq_iff x a, contains→In xs a)

pub In→contains : (xs : List String) (a : String) → In a xs → contains xs a ≡ true
unfolding contains
In→contains [] a h = absurd h
In→contains (x ∷ xs) a (inl e) = ground (arith, eq_iff x a)
In→contains (x ∷ xs) a (inr h) = ground (arith, eq_iff x a, In→contains xs a h)
