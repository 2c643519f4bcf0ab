-- ===== src/Workflow/Validity/Checks.antt =====
-- When the checks on one stage and on all stages pass (src/workflow/mod.rs).
use jeeves_core.Prelude.{
  String, ◌≡◌, refl, ◌≢◌, ◌↔◌, inl, inr, Bool, true, false, Option, none, some, is_some, List, [],
  ◌∷◌, arith, eq_iff, All, Bool-cases,
}
use jeeves_core.Prelude.Int.{ℤ, pos, ◌<ℤ◌}
use jeeves_core.Types.{Error, Result, ok, err, ◌>>◌, reject_if, is_empty, StageName}
use jeeves_core.Workflow.{
  Stage, contains, not_positive, check_self_loop, check_target, check_positive, validate_stage,
  validate_stages,
}
use jeeves_core.Workflow.Validity.{In, OnSome, StageIsValid, contains→In, In→contains}

-- A chain of checks passes exactly when each check passes.
pub >>-ok : (m k : Result (Unit {0})) → ((m >> k) ≡ ok tt) ↔ ((m ≡ ok tt) × (k ≡ ok tt))
>>-ok (ok u) k = (λ h. (refl, h), λ h. h.1)
>>-ok (err e) k = (λ h. cc, λ h. cc (h.0))

pub and_iff {ℓ κ μ ν} :
    {A : Type ℓ} {B : Type κ} {C : Type μ} {D : Type ν} → A ↔ C → B ↔ D → (A × B) ↔ (C × D)
and_iff p q = (λ h. (p.0 h.0, q.0 h.1), λ h. (p.1 h.0, q.1 h.1))

pub iff_trans {ℓ κ μ} : {A : Type ℓ} {B : Type κ} {C : Type μ} → A ↔ B → B ↔ C → A ↔ C
iff_trans p q = (λ h. q.0 (p.0 h), λ h. p.1 (q.1 h))

-- One more check in front of a chain.
pub check_iff {ℓ κ} :
    {P : Type ℓ} {Q : Type κ} (m k : Result (Unit {0}))
    → (m ≡ ok tt) ↔ P
    → (k ≡ ok tt) ↔ Q
    → ((m >> k) ≡ ok tt) ↔ (P × Q)
check_iff m k p q = iff_trans (>>-ok m k) (and_iff p q)

pub reject_if-ok : (b : Bool) (e : Error) → (reject_if b e ≡ ok tt) ↔ (b ≡ false)
reject_if-ok true e = (λ h. cc, λ h. cc)
reject_if-ok false e = (λ h. refl, λ h. refl)

pub not-contains_iff : (xs : List String) (a : String) → (contains xs a ≡ false) ↔ (¬ In a xs)
not-contains_iff xs a = (
  λ h i. cc (h, In→contains xs a i),
  λ h. elim (Bool-cases (contains xs a)) [ inl e ↦ absurd (h (contains→In xs a e)) | inr e ↦ e ],
)

pub is_empty_iff : (s : String) → (is_empty s ≡ false) ↔ (s ≢ "")
is_empty_iff s = (λ h e. ground (arith, eq_iff s ""), λ h. ground (arith, eq_iff s ""))

pub not_positive_iff : (v : ℤ) → (not_positive v ≡ false) ↔ (pos 0 <ℤ v)
unfolding not_positive
not_positive_iff v = (λ h. ground arith, λ h. ground arith)

pub check_self_loop_iff :
    (s : Stage) (o : Option String)
    → (check_self_loop s o ≡ ok tt) ↔ OnSome (λ t. t ≡ s.name → is_some s.max_visits ≡ true) o
unfolding check_self_loop
check_self_loop_iff s none = (λ h. tt, λ h. refl)
check_self_loop_iff s (some t) =
    (λ h e. ground (arith, eq_iff t s.name), λ h. ground (arith, eq_iff t s.name))

pub check_target_iff :
    (name : StageName) (what : String) (known : List String) (o : Option String)
    → (check_target name what known o ≡ ok tt) ↔ OnSome (λ t. In t known) o
unfolding check_target
check_target_iff name what known none = (λ h. tt, λ h. refl)
check_target_iff name what known (some t) =
    (λ h. contains→In known t (ground arith), λ h. rw (In→contains known t h) refl)

pub check_positive_iff :
    (name : StageName) (what : String) (o : Option ℤ)
    → (check_positive name what o ≡ ok tt) ↔ OnSome (λ v. pos 0 <ℤ v) o
unfolding check_positive
check_positive_iff name what none = (λ h. tt, λ h. refl)
check_positive_iff name what (some v) =
    iff_trans (reject_if-ok (not_positive v) _) (not_positive_iff v)

-- The body of the second loop accepts exactly the stages that are valid among the names known.
pub validate_stage_iff :
    (known : List String) (s : Stage) → (validate_stage known s ≡ ok tt) ↔ StageIsValid known s
unfolding validate_stage
validate_stage_iff known s =
    iff_trans
      (check_iff _ _ (iff_trans (reject_if-ok _ _) (is_empty_iff s.agent)) (
        check_iff _ _ (check_self_loop_iff s s.default_next) (
          check_iff _ _ (check_target_iff s.name _ known s.default_next) (
            check_iff _ _ (check_target_iff s.name _ known s.error_next) (
              check_iff _ _ (check_positive_iff s.name _ s.max_visits)
                (check_positive_iff s.name _ s.max_context_tokens))))))
      (
        λ h. record {
          has_agent = h.0;
          no_bare_loop = h.1.0;
          default_known = h.1.1.0;
          error_known = h.1.1.1.0;
          visits_positive = h.1.1.1.1.0;
          context_positive = h.1.1.1.1.1;
        },
        λ v. (
          v.has_agent,
          (
            v.no_bare_loop,
            (v.default_known, (v.error_known, (v.visits_positive, v.context_positive))),
          ),
        ),
      )

pub validate_stages_iff :
    (known : List String) (ss : List Stage)
    → (validate_stages known ss ≡ ok tt) ↔ All (StageIsValid known) ss
unfolding validate_stages
validate_stages_iff known [] = (λ h. tt, λ h. refl)
validate_stages_iff known (s ∷ rest) =
    check_iff _ _ (validate_stage_iff known s) (validate_stages_iff known rest)
