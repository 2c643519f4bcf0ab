-- ===== src/Workflow/Validity/Accepted.antt =====
-- When `validate` accepts a workflow (src/workflow/mod.rs).
use jeeves_core.Prelude.{
  String, ◌≡◌, refl, ◌≢◌, ◌↔◌, ◌⊎◌, inl, inr, false, Option, none, some, List, [], ◌∷◌, All,
}
use jeeves_core.Types.{Result, ok, >>=-eq-ok, ◌>>=◌, ◌>>◌}
use jeeves_core.Workflow.{
  Stage, Workflow, collect_names, validate_stages, validate_schema, is_nil, validate,
}
use jeeves_core.Workflow.Validity.{
  In, Distinct, OnSome, names, output_keys, state_keys, StageIsValid, IsValid,
}
use jeeves_core.Workflow.Validity.Checks.{
  iff_trans, check_iff, reject_if-ok, is_empty_iff, not_positive_iff, validate_stages_iff,
}
use jeeves_core.Workflow.Validity.Names.{
  Apart-nil, validate_schema_iff, Collectable, collect_names_sound, collect_names-In,
  collect_names_complete,
}

OnSome-map {ℓ κ μ} :
    {A : Type ℓ} (P : A → Type κ) (Q : A → Type μ)
    → ((a : A) → P a → Q a)
    → (o : Option A) → OnSome P o
    → OnSome Q o
OnSome-map P Q f none h = tt
OnSome-map P Q f (some a) h = f a h

All-map {ℓ κ μ} :
    {A : Type ℓ} (P : A → Type κ) (Q : A → Type μ)
    → ((a : A) → P a → Q a)
    → (xs : List A) → All P xs
    → All Q xs
All-map P Q f [] h = tt
All-map P Q f (x ∷ xs) h = (f x h.0, All-map P Q f xs h.1)

StageIsValid-mono :
    {xs ys : List String}
    → ((a : String) → In a xs → In a ys)
    → (s : Stage) → StageIsValid xs s
    → StageIsValid ys s
StageIsValid-mono {xs} {ys} f s v = record {
  has_agent = v.has_agent;
  no_bare_loop = v.no_bare_loop;
  default_known = OnSome-map (λ t. In t xs) (λ t. In t ys) f s.default_next v.default_known;
  error_known = OnSome-map (λ t. In t xs) (λ t. In t ys) f s.error_next v.error_known;
  visits_positive = v.visits_positive;
  context_positive = v.context_positive;
}

-- The checks behind the first loop, on the set of names that it yields.
rest_iff :
    (w : Workflow) (ns : List String)
    → ((a : String) → In a ns ↔ (In a (names w.stages) ⊎ In a []))
    → ((validate_stages ns w.stages >> validate_schema w.state_schema []) ≡ ok tt)
      ↔ (All (StageIsValid (names w.stages)) w.stages × Distinct (state_keys w.state_schema))
rest_iff w ns e =
    check_iff _ _
      (iff_trans (validate_stages_iff ns w.stages) (
        λ h.
            All-map (StageIsValid ns) (StageIsValid (names w.stages))
              (StageIsValid-mono (λ a i. elim ((e a).0 i) [ inl j ↦ j | inr b ↦ absurd b ]))
              w.stages h,
        λ h.
            All-map (StageIsValid (names w.stages)) (StageIsValid ns)
              (StageIsValid-mono (λ a i. (e a).1 (inl i))) w.stages h,
      ))
      (iff_trans (validate_schema_iff w.state_schema [])
        (λ h. h.0, λ h. (h, Apart-nil (state_keys w.state_schema))))

is_nil_iff {ℓ} : {A : Type ℓ} (xs : List A) → (is_nil xs ≡ false) ↔ (xs ≢ [])
unfolding is_nil
is_nil_iff [] = (λ h. cc, λ h. absurd (h refl))
is_nil_iff (x ∷ xs) = (λ h e. cc, λ h. refl)

-- The loops of `validate`, from `stage_names` on.
abbrev loops : Workflow → Result (Unit {0})
loops w = do
  ns ← collect_names w.stages [] []
  validate_stages ns w.stages
  validate_schema w.state_schema []

abbrev LoopsPass : Workflow → Type 0
LoopsPass w =
    Collectable w.stages [] []
    × All (StageIsValid (names w.stages)) w.stages
    × Distinct (state_keys w.state_schema)

loops_iff : (w : Workflow) → (loops w ≡ ok tt) ↔ LoopsPass w
loops_iff w = (
  λ h.
      let p = >>=-eq-ok (collect_names w.stages [] []) _ h in
      let r = (rest_iff w p.0 (collect_names-In w.stages [] [] p.1)).0 p.2 in
      (collect_names_sound w.stages [] [] p.1, r.0, r.1),
  λ h.
      let p = collect_names_complete w.stages [] [] h.0 in
      rw p.1 ((rest_iff w p.0 (collect_names-In w.stages [] [] p.1)).1 (h.1, h.2)),
)

-- `validate` accepts a workflow exactly when it is valid: it has a name, a stage and positive
-- bounds; its stage names are non-empty and distinct, its output keys and its state keys are
-- distinct; and every stage has an agent, targets that exist, positive limits, and no
-- `default_next` to itself without `max_visits`.
pub validate_iff : (w : Workflow) → (validate w ≡ ok tt) ↔ IsValid w
unfolding validate
validate_iff w =
    iff_trans
      (check_iff _ _ (iff_trans (reject_if-ok _ _) (is_empty_iff w.name)) (
        check_iff _ _ (iff_trans (reject_if-ok _ _) (is_nil_iff w.stages)) (
          check_iff _ _ (iff_trans (reject_if-ok _ _) (not_positive_iff w.max_iterations)) (
            check_iff _ _ (iff_trans (reject_if-ok _ _) (not_positive_iff w.max_llm_calls)) (
              check_iff _ _ (iff_trans (reject_if-ok _ _) (not_positive_iff w.max_agent_hops))
                (loops_iff w))))))
      (
        λ h. record {
          named = h.0;
          has_stage = h.1.0;
          iterations_positive = h.1.1.0;
          llm_calls_positive = h.1.1.1.0;
          agent_hops_positive = h.1.1.1.1.0;
          names_nonempty = h.1.1.1.1.1.0.0;
          names_distinct = h.1.1.1.1.1.0.1.0;
          output_keys_distinct = h.1.1.1.1.1.0.2.0;
          stages_valid = h.1.1.1.1.1.1;
          state_keys_distinct = h.1.1.1.1.1.2;
        },
        λ v. (
          v.named,
          (
            v.has_stage,
            (
              v.iterations_positive,
              (
                v.llm_calls_positive,
                (
                  v.agent_hops_positive,
                  (
                    (
                      v.names_nonempty,
                      (v.names_distinct, Apart-nil (names w.stages)),
                      (v.output_keys_distinct, Apart-nil (output_keys w.stages)),
                    ),
                    v.stages_valid,
                    v.state_keys_distinct,
                  ),
                ),
              ),
            ),
          ),
        ),
      )
