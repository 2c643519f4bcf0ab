-- ===== src/Tools/Registry/Wrapping.antt =====
-- The registry of one agent's tools (src/tools/executor.rs, `wrap_registry`), and the builder's.
use jeeves_core.Prelude.{
  ◌≡◌, refl, ap, ◌∙◌, ◌↔◌, inl, inr, Bool, true, false, ◌&&◌, ◌||◌, Option, none, some, is_some,
  List, [], ◌∷◌, any, arith, ◌==◌, eq_iff, if◌then◌else◌, Bool-cases, Option-cases,
}
use jeeves_core.Json.{Value}
use jeeves_core.Prelude.Dict
use jeeves_core.Types.{AgentName, ToolName, Timestamp, ok}
use jeeves_core.Workflow.{contains}
use jeeves_core.Workflow.Validity.Checks.{iff_trans}
use jeeves_core.Tools.Executor.{ToolInfo, ToolExecutor}
use jeeves_core.Tools.Registry.{
  ToolRegistry, new, register, get, admit, list_all_tools, filter_tools, wrap_registry,
}
use jeeves_core.Tools.Registry.Gates.{admit_iff}

-- Some executor lists a tool of the name.
abbrev pub lists : ToolName → List ToolInfo → Bool
lists name ts = any (λ t. t.name == name) ts

-- One turn of the loop.
abbrev filter_step : List ToolName → ToolRegistry → ToolInfo → ToolRegistry → ToolRegistry
filter_step allowed r t filtered =
    if contains allowed t.name
    then elim (get t.name r) [ none ↦ filtered | some e ↦ register t.name e filtered ]
    else filtered

get-register :
    (name k : ToolName) (x : ToolExecutor) (r : ToolRegistry)
    → get k (register name x r) ≡ (if name == k then some x else get k r)
unfolding register
get-register name k x r = Dict.get-insert r.executors name k x

get-filter_step :
    (allowed : List ToolName) (r : ToolRegistry) (t : ToolInfo) (filtered : ToolRegistry)
    (name : ToolName)
    → get name (filter_step allowed r t filtered) ≡ (
        if (t.name == name) && (contains allowed name && is_some (get name r))
        then get name r
        else get name filtered)
get-filter_step allowed r t filtered name = elim (Bool-cases (contains allowed t.name)) [
  | inr c ↦ ground (arith, c, eq_iff t.name name)
  | inl c ↦ elim (Option-cases (get t.name r)) [
    | inl g ↦ ground (arith, c, g, eq_iff t.name name)
    | inr (x, g) ↦ ground (arith, c, g, eq_iff t.name name, get-register t.name name x filtered)
  ]
]

get-filter_tools :
    (allowed : List ToolName) (r : ToolRegistry) (ts : List ToolInfo) (filtered : ToolRegistry)
    (name : ToolName)
    → get name (filter_tools allowed r ts filtered) ≡ (
        if lists name ts && (contains allowed name && is_some (get name r))
        then get name r
        else get name filtered)
unfolding filter_tools any
get-filter_tools allowed r [] filtered name = refl
get-filter_tools allowed r (t ∷ ts) filtered name =
    get-filter_tools allowed r ts (filter_step allowed r t filtered) name
    ∙ ap
        (λ o.
          if lists name ts && (contains allowed name && is_some (get name r))
          then get name r
          else o)
        (get-filter_step allowed r t filtered name)
    ∙ choose (t.name == name) (lists name ts) (contains allowed name && is_some (get name r))
  where
    choose :
        (a b c : Bool)
        → (if b && c then get name r else if a && c then get name r else get name filtered)
          ≡ (if (a || b) && c then get name r else get name filtered)
    choose true true true = refl
    choose true true false = refl
    choose true false true = refl
    choose true false false = refl
    choose false true c = refl
    choose false false c = refl

-- The wrapped registry has the executor x under a name.
abbrev pub Offers : ToolRegistry → List ToolName → ToolName → ToolExecutor → Type 0
Offers r allowed name x =
    (contains allowed name ≡ true) × (lists name (list_all_tools r) ≡ true) × (get name r ≡ some x)

-- An agent's registry offers exactly the tools that are on its allow list, that an executor of the
-- wrapped registry lists and that the wrapped registry has, with the executors they have there.
pub get-wrap_registry_iff :
    (r : ToolRegistry) (allowed : List ToolName) (name : ToolName) (x : ToolExecutor)
    → (get name (wrap_registry r allowed) ≡ some x) ↔ Offers r allowed name x
unfolding wrap_registry contains Dict.get
get-wrap_registry_iff r [] name x = (λ h. cc, λ h. absurd (let q = h.0 in cc))
get-wrap_registry_iff r (a ∷ allowed) name x =
    rw (get-filter_tools (a ∷ allowed) r (list_all_tools r) new name)
      (gate (lists name (list_all_tools r)) (contains (a ∷ allowed) name) (get name r))
  where
    gate :
        (l c : Bool) (o : Option ToolExecutor)
        → ((if l && (c && is_some o) then o else none) ≡ some x)
          ↔ ((c ≡ true) × (l ≡ true) × (o ≡ some x))
    gate true true none = (λ h. cc, λ h. absurd (let q = h.2 in cc))
    gate true true (some y) = (λ h. (refl, refl, h), λ h. h.2)
    gate true false o = (λ h. cc, λ h. absurd (let q = h.0 in cc))
    gate false c o = (λ h. cc, λ h. absurd (let q = h.1 in cc))

-- No gate is attached.
abbrev Ungated : ToolRegistry → Type 0
Ungated r = (r.access_policy ≡ none) × (r.catalog ≡ none) × (r.health ≡ none)

filter_step-Ungated :
    (allowed : List ToolName) (r : ToolRegistry) (t : ToolInfo) (filtered : ToolRegistry)
    → Ungated filtered
    → Ungated (filter_step allowed r t filtered)
unfolding register
filter_step-Ungated allowed r t filtered h = elim (Bool-cases (contains allowed t.name)) [
  | inr c ↦ rw c h
  | inl c ↦ elim (Option-cases (get t.name r)) [ inl g ↦ rw (c, g) h | inr (x, g) ↦ rw (c, g) h ]
]

filter_tools-Ungated :
    (allowed : List ToolName) (r : ToolRegistry) (ts : List ToolInfo) (filtered : ToolRegistry)
    → Ungated filtered
    → Ungated (filter_tools allowed r ts filtered)
unfolding filter_tools
filter_tools-Ungated allowed r [] filtered h = h
filter_tools-Ungated allowed r (t ∷ ts) filtered h =
    filter_tools-Ungated allowed r ts _ (filter_step-Ungated allowed r t filtered h)

wrap_registry-Ungated :
    (r : ToolRegistry) (allowed : List ToolName) → Ungated (wrap_registry r allowed)
unfolding wrap_registry
wrap_registry-Ungated r [] = (refl, refl, refl)
wrap_registry-Ungated r (a ∷ allowed) =
    filter_tools-Ungated (a ∷ allowed) r (list_all_tools r) new (refl, refl, refl)

-- A call through an agent's registry reaches an executor exactly when the registry offers it,
-- whatever policy, catalog and health tracker are attached to the registry that was wrapped.
pub wrap_registry-admit_iff :
    (now : Timestamp) (agent : AgentName) (name : ToolName) (params : Value) (r : ToolRegistry)
    (allowed : List ToolName) (x : ToolExecutor)
    → (admit now agent name params (wrap_registry r allowed) ≡ ok x) ↔ Offers r allowed name x
wrap_registry-admit_iff now agent name params r allowed x =
    let (p, c, h) = wrap_registry-Ungated r allowed in
    iff_trans (admit_iff now agent name params (wrap_registry r allowed) x) (
      iff_trans (λ a. a.3, λ g. (rw p tt, rw c tt, rw h tt, g))
        (get-wrap_registry_iff r allowed name x))
