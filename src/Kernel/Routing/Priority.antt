-- ===== src/Kernel/Routing/Priority.antt =====
-- The order in which the routes of a stage are tried (src/kernel/routing.rs).
use jeeves_core.Prelude.{
  String, ◌≡◌, refl, sym, subst, ◌∙◌, ◌≢◌, ◌↔◌, ◌⊎◌, inl, inr, true, false, Option, none, some,
  arith, ◌==◌, All-find, find, Bool-cases, Option-cases,
}
use mathlib.Core.Path.{subst₂}
use jeeves_core.Types.{StageName, RoutingFnName}
use jeeves_core.Workflow.{Stage, Workflow}
use jeeves_core.Workflow.Validity.{OnSome, In, IsValid, StageIsValid, names}
use jeeves_core.Kernel.Routing.{
  RoutingContext, RoutingFn, RoutingRegistry, RoutingResult, next, terminate, RoutingReason,
  error_route, routing_fn, default_route, no_match, get_fn, evaluate_routing_with_reason,
}

-- The agent failed and the stage has a target for that.
abbrev pub FailsTo : Stage → RoutingContext → StageName → Type 0
FailsTo stage ctx t = (ctx.agent_failed ≡ true) × (stage.error_next ≡ some t)

-- No route for a failure applies.
abbrev pub NoErrorRoute : Stage → RoutingContext → Type 0
NoErrorRoute stage ctx = (ctx.agent_failed ≡ false) ⊎ (stage.error_next ≡ none)

-- The stage names no routing function, or none that is registered.
abbrev pub NoFn : Stage → RoutingRegistry → Type 0
NoFn stage registry =
    (stage.routing_fn ≡ none)
    ⊎ ((name : RoutingFnName) × (stage.routing_fn ≡ some name) × (get_fn registry name ≡ none))

abbrev pub HasFn : Stage → RoutingRegistry → RoutingFnName → RoutingFn → Type 0
HasFn stage registry name f = (stage.routing_fn ≡ some name) × (get_fn registry name ≡ some f)

-- The routes of a stage, each with its condition, as the documentation of `Stage` orders them.
pub data Routes (stage : Stage) (registry : RoutingRegistry) (ctx : RoutingContext)
    (target : Option StageName) (reason : RoutingReason) : Type 0 where
  on_error :
      (t : StageName)
      → FailsTo stage ctx t
      → target ≡ some t
      → reason ≡ error_route
      → Routes stage registry ctx target reason
  by_fn :
      (name : RoutingFnName) (f : RoutingFn) (t : String)
      → NoErrorRoute stage ctx
      → HasFn stage registry name f
      → f ctx ≡ next t
      → target ≡ some t
      → reason ≡ routing_fn name
      → Routes stage registry ctx target reason
  fn_ends :
      (name : RoutingFnName) (f : RoutingFn)
      → NoErrorRoute stage ctx
      → HasFn stage registry name f
      → f ctx ≡ terminate
      → target ≡ none
      → reason ≡ routing_fn name
      → Routes stage registry ctx target reason
  by_default :
      (t : StageName)
      → NoErrorRoute stage ctx
      → NoFn stage registry
      → stage.default_next ≡ some t
      → target ≡ some t
      → reason ≡ default_route
      → Routes stage registry ctx target reason
  ends :
      NoErrorRoute stage ctx
      → NoFn stage registry
      → stage.default_next ≡ none
      → target ≡ none
      → reason ≡ no_match
      → Routes stage registry ctx target reason

error_cases :
    (stage : Stage) (ctx : RoutingContext)
    → ((t : StageName) × FailsTo stage ctx t) ⊎ NoErrorRoute stage ctx
error_cases stage ctx = elim (Bool-cases ctx.agent_failed) [
  | inr f ↦ inr (inl f)
  | inl f ↦ elim (Option-cases stage.error_next) [
    | inl n ↦ inr (inr n)
    | inr (t, e) ↦ inl (t, (f, e))
  ]
]

fn_cases :
    (stage : Stage) (registry : RoutingRegistry)
    → ((name : RoutingFnName) × (f : RoutingFn) × HasFn stage registry name f) ⊎ NoFn stage registry
fn_cases stage registry = elim (Option-cases stage.routing_fn) [
  | inl n ↦ inr (inl n)
  | inr (name, e) ↦ elim (Option-cases (get_fn registry name)) [
    | inl n ↦ inr (inr (name, e, n))
    | inr (f, g) ↦ inl (name, f, (e, g))
  ]
]

module _ (stage : Stage) (registry : RoutingRegistry) (ctx : RoutingContext) where
  abbrev SomeRoute : Type 0
  SomeRoute =
      (target : Option StageName) × (reason : RoutingReason) × Routes stage registry ctx target
        reason

  fn_route :
      (name : RoutingFnName) (f : RoutingFn) (r : RoutingResult)
      → NoErrorRoute stage ctx
      → HasFn stage registry name f
      → f ctx ≡ r
      → SomeRoute
  fn_route name f (next t) n h e = (some t, routing_fn name, by_fn name f t n h e refl refl)
  fn_route name f terminate n h e = (none, routing_fn name, fn_ends name f n h e refl refl)

  some_route : SomeRoute
  some_route = elim (error_cases stage ctx) [
    | inl (t, h) ↦ (some t, error_route, on_error t h refl refl)
    | inr n ↦ elim (fn_cases stage registry) [
      | inl (name, f, h) ↦ fn_route name f (f ctx) n h refl
      | inr h ↦ elim (Option-cases stage.default_next) [
        | inl d ↦ (none, no_match, ends n h d refl refl)
        | inr (t, d) ↦ (some t, default_route, by_default t n h d refl refl)
      ]
    ]
  ]

  decision_complete :
      (from_stage : String) {target : Option StageName} {reason : RoutingReason}
      → Routes stage registry ctx target reason
      → ((evaluate_routing_with_reason stage registry ctx from_stage).target ≡ target)
        × ((evaluate_routing_with_reason stage registry ctx from_stage).reason ≡ reason)
  unfolding evaluate_routing_with_reason
  decision_complete from_stage (on_error t h p q) = ground arith
  decision_complete from_stage (by_fn name f t n h r p q) = ground arith
  decision_complete from_stage (fn_ends name f n h r p q) = ground arith
  decision_complete from_stage (by_default t n h d p q) = ground arith
  decision_complete from_stage (ends n h d p q) = ground arith

-- The decision of a stage is the one route whose condition holds: a failed agent's `error_next`,
-- else the registered routing function with its target or its end, else `default_next`, else the
-- end of the workflow. A routing function that is not registered is passed over.
pub evaluate_routing_with_reason-Routes :
    (stage : Stage) (registry : RoutingRegistry) (ctx : RoutingContext) (from_stage : String)
    (target : Option StageName) (reason : RoutingReason)
    → Routes stage registry ctx target reason ↔ (
        ((evaluate_routing_with_reason stage registry ctx from_stage).target ≡ target)
        × ((evaluate_routing_with_reason stage registry ctx from_stage).reason ≡ reason))
evaluate_routing_with_reason-Routes stage registry ctx from_stage target reason = (
  decision_complete stage registry ctx from_stage,
  λ h.
      let r = some_route stage registry ctx in
      let d = decision_complete stage registry ctx from_stage r.2 in
      subst₂ (Routes stage registry ctx) (sym d.0 ∙ h.0) (sym d.1 ∙ h.1) r.2,
)

-- For a stage that a valid workflow has, a target that no routing function chose is the name of a
-- stage of the workflow.
pub static_target_known :
    (w : Workflow) (stage : Stage) (registry : RoutingRegistry) (ctx : RoutingContext)
    (from_stage : String) (name : StageName) {t : StageName}
    → IsValid w
    → find (λ s. s.name == name) w.stages ≡ some stage
    → (evaluate_routing_with_reason stage registry ctx from_stage).target ≡ some t
    → ((f : RoutingFnName)
        → (evaluate_routing_with_reason stage registry ctx from_stage).reason ≢ routing_fn f)
    → In t (names w.stages)
static_target_known w stage registry ctx from_stage name {t} v found e no_fn =
    go ((evaluate_routing_with_reason-Routes stage registry ctx from_stage (some t) _).1 (e, refl))
  where
    s : StageIsValid (names w.stages) stage
    s = All-find (StageIsValid (names w.stages)) (λ x. x.name == name) w.stages v.stages_valid found

    go :
        Routes stage registry ctx
          (some t)
          (evaluate_routing_with_reason stage registry ctx from_stage).reason
        → In t (names w.stages)
    go (on_error u h p q) =
        subst (λ x. OnSome (λ y. In y (names w.stages)) x) (h.1 ∙ sym p) s.error_known
    go (by_fn f g u n h r p q) = absurd (no_fn f q)
    go (fn_ends f g n h r p q) = absurd (no_fn f q)
    go (by_default u n h d p q) =
        subst (λ x. OnSome (λ y. In y (names w.stages)) x) (d ∙ sym p) s.default_known
    go (ends n h d p q) = cc
