-- ===== src/Run/Validity.antt =====
-- What `validate` accepts of a run (src/run/mod.rs).
use jeeves_core.Prelude.{
  String, ◌≡◌, refl, ◌≢◌, ◌↔◌, ◌⊎◌, inl, inr, Bool, true, false, not, ◌&&◌, Option, List, [], ◌∷◌,
  arith, eq_iff,
}
use jeeves_core.Prelude.Int.{ℤ, pos, ◌≤ℤ◌, ◌<ℤ◌}
use jeeves_core.Json.{Value}
use jeeves_core.Types.{Error, Result, ok, ◌>>◌, reject_if, StageName, Timestamp}
use jeeves_core.Workflow.Validity.{In}
use jeeves_core.Workflow.Validity.Checks.{iff_trans, check_iff, reject_if-ok, is_empty_iff}
use jeeves_core.Run
use jeeves_core.Run.{Run, validate, contains_stage, has_stages, negative, not_positive}

-- No counter is negative, every limit is positive, every identifier is there, and a run that has
-- stages is at one of them.
pub record IsWellFormed (r : Run) : Type 0 where
  pub envelope_id : r.identity.envelope_id ≢ ""
  pub request_id : r.identity.request_id ≢ ""
  pub user_id : r.identity.user_id ≢ ""
  pub session_id : r.identity.session_id ≢ ""
  pub llm_calls : pos 0 ≤ℤ r.metrics.llm_calls
  pub tool_calls : pos 0 ≤ℤ r.metrics.tool_calls
  pub agent_hops : pos 0 ≤ℤ r.metrics.agent_hops
  pub max_llm_calls : pos 0 <ℤ r.limits.max_llm_calls
  pub max_agent_hops : pos 0 <ℤ r.limits.max_agent_hops
  pub current_stage : (r.stage_order ≡ []) ⊎ In r.current_stage r.stage_order
  pub max_iterations : pos 0 <ℤ r.max_iterations

negative_iff : (v : ℤ) → (negative v ≡ false) ↔ (pos 0 ≤ℤ v)
unfolding negative
negative_iff v = (λ h. ground arith, λ h. ground arith)

not_positive_iff : (v : ℤ) → (not_positive v ≡ false) ↔ (pos 0 <ℤ v)
unfolding not_positive
not_positive_iff v = (λ h. ground arith, λ h. ground arith)

contains_stage→In : (xs : List StageName) (a : StageName) → contains_stage xs a ≡ true → In a xs
unfolding contains_stage
contains_stage→In [] a h = cc
contains_stage→In (x ∷ xs) a h = ground (arith, eq_iff x a, contains_stage→In xs a)

In→contains_stage : (xs : List StageName) (a : StageName) → In a xs → contains_stage xs a ≡ true
unfolding contains_stage
In→contains_stage [] a h = elim h [ ]
In→contains_stage (x ∷ xs) a h = ground (arith, eq_iff x a, In→contains_stage xs a)

at_stage_iff :
    (xs : List StageName) (a : StageName)
    → ((has_stages xs && not (contains_stage xs a)) ≡ false) ↔ ((xs ≡ []) ⊎ In a xs)
unfolding has_stages
at_stage_iff [] a = (λ h. inl refl, λ h. refl)
at_stage_iff (x ∷ xs) a = (
  λ h. inr (contains_stage→In (x ∷ xs) a (ground (arith, h))),
  λ h. elim h [ inl e ↦ cc | inr i ↦ let c = In→contains_stage (x ∷ xs) a i in rw c refl ],
)

-- A test that rejects, in front of a chain.
reject_iff {ℓ κ} :
    {P : Type ℓ} {Q : Type κ} (b : Bool) (e : Error) (k : Result (Unit {0}))
    → (b ≡ false) ↔ P
    → (k ≡ ok tt) ↔ Q
    → ((reject_if b e >> k) ≡ ok tt) ↔ (P × Q)
reject_iff b e k p q = check_iff (reject_if b e) k (iff_trans (reject_if-ok b e) p) q

-- The end of the chain.
done_iff : (ok tt ≡ ok (tt {0})) ↔ Unit {0}
done_iff = (λ h. tt, λ h. refl)

-- What the checks test, in their order.
abbrev Tested : Run → Type 0
Tested r =
    (r.identity.envelope_id ≢ "")
    × ((r.identity.request_id ≢ "")
        × ((r.identity.user_id ≢ "")
            × ((r.identity.session_id ≢ "")
                × ((pos 0 ≤ℤ r.metrics.llm_calls)
                    × ((pos 0 ≤ℤ r.metrics.tool_calls)
                        × ((pos 0 ≤ℤ r.metrics.agent_hops)
                            × ((pos 0 <ℤ r.limits.max_llm_calls)
                                × ((pos 0 <ℤ r.limits.max_agent_hops)
                                    × (((r.stage_order ≡ []) ⊎ In r.current_stage r.stage_order)
                                        × ((pos 0 <ℤ r.max_iterations) × Unit {0}))))))))))

checks_iff : (r : Run) → (validate r ≡ ok tt) ↔ Tested r
unfolding validate
checks_iff r = reject_iff _ _ _ (is_empty_iff r.identity.envelope_id) (
    reject_iff _ _ _ (is_empty_iff r.identity.request_id) (
      reject_iff _ _ _ (is_empty_iff r.identity.user_id) (
        reject_iff _ _ _ (is_empty_iff r.identity.session_id) (
          reject_iff _ _ _ (negative_iff r.metrics.llm_calls) (
            reject_iff _ _ _ (negative_iff r.metrics.tool_calls) (
              reject_iff _ _ _ (negative_iff r.metrics.agent_hops) (
                reject_iff _ _ _ (not_positive_iff r.limits.max_llm_calls) (
                  reject_iff _ _ _ (not_positive_iff r.limits.max_agent_hops) (
                    reject_iff _ _ _ (at_stage_iff r.stage_order r.current_stage)
                      (reject_iff _ _ (ok tt) (not_positive_iff r.max_iterations) done_iff))))))))))

-- A run is accepted exactly when its identifiers are not empty, its counters are not negative, its
-- limits are positive, and it has no stages or is at one of them.
pub validate_run_iff : (r : Run) → (validate r ≡ ok tt) ↔ IsWellFormed r
validate_run_iff r = iff_trans (checks_iff r) (
  λ (a, (b, (c, (d, (e, (f, (g, (h, (i, (j, (k, u))))))))))). record {
    envelope_id = a;
    request_id = b;
    user_id = c;
    session_id = d;
    llm_calls = e;
    tool_calls = f;
    agent_hops = g;
    max_llm_calls = h;
    max_agent_hops = i;
    current_stage = j;
    max_iterations = k;
  },
  λ w. (
    w.envelope_id,
    (
      w.request_id,
      (
        w.user_id,
        (
          w.session_id,
          (
            w.llm_calls,
            (
              w.tool_calls,
              (
                w.agent_hops,
                (w.max_llm_calls, (w.max_agent_hops, (w.current_stage, (w.max_iterations, tt)))),
              ),
            ),
          ),
        ),
      ),
    ),
  ),
)

-- A new run with identifiers that are not empty is accepted.
pub validate-new :
    (now : Timestamp) (envelope request user session input : String) (metadata : Option Value)
    → envelope ≢ ""
    → request ≢ ""
    → user ≢ ""
    → session ≢ ""
    → validate (Run.new now envelope request user session input metadata) ≡ ok tt
unfolding Run.new
validate-new now envelope request user session input metadata e q u s =
    (validate_run_iff _).1 (record {
      envelope_id = e;
      request_id = q;
      user_id = u;
      session_id = s;
      llm_calls = omega arith;
      tool_calls = omega arith;
      agent_hops = omega arith;
      max_llm_calls = omega arith;
      max_agent_hops = omega arith;
      current_stage = inl refl;
      max_iterations = omega arith;
    })
