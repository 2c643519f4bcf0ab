-- ===== src/Agent/Runner/Retries.antt =====
-- What a retry policy makes of the attempts (src/kernel/runner.rs).
use jeeves_core.Prelude.{
  ℕ, zero, suc, ◌+◌, ◌≤◌, ◌<◌, ◌≡◌, refl, subst, ◌⊎◌, inl, inr, Bool, true, false, ◌||◌, Option,
  none, some, is_some, arith, leb, Bool-cases,
}
use jeeves_core.Workflow.{RetryPolicy}
use jeeves_core.Kernel.Protocol.{AgentExecutionMetrics}
use jeeves_core.Agent.{AgentOutput, no_metrics}
use jeeves_core.Agent.Runner.{accumulate, attempts, u32_bound, max_attempts, execute_with_retry}

-- An attempt that ends the loop whatever attempts are left: a success, or a request to wait.
abbrev pub settled : AgentOutput → Bool
settled o = o.success || is_some o.interrupt_request

-- The metrics of the first attempts, accumulated in their order.
abbrev pub total : (ℕ → AgentOutput) → ℕ → AgentExecutionMetrics
total run zero = no_metrics
total run (suc n) = accumulate (total run n) (run n).metrics

-- Attempt n, the last that is made, with the metrics of all that were made.
abbrev pub last_attempt : (ℕ → AgentOutput) → ℕ → AgentOutput
last_attempt run n = record (run n) { metrics = total run (suc n) }

-- From the attempt `from` on, with `left` more after it, the loop returns attempt n.
abbrev Outcome : (ℕ → AgentOutput) → ℕ → ℕ → ℕ → Type 0
Outcome run from left n =
    (from ≤ n)
    × (n ≤ from + left)
    × ((i : ℕ) → from ≤ i → i < n → settled (run i) ≡ false)
    × ((settled (run n) ≡ true) ⊎ (n ≡ from + left))

-- Nothing lies between an attempt and itself.
none-before : (run : ℕ → AgentOutput) (n : ℕ) (i : ℕ) → n ≤ i → i < n → settled (run i) ≡ false
none-before run n i h l = absurd (omega arith)

-- One attempt more, which did not settle.
before-suc :
    (run : ℕ → AgentOutput) (from n : ℕ)
    → settled (run from) ≡ false
    → ((i : ℕ) → suc from ≤ i → i < n → settled (run i) ≡ false)
    → (i : ℕ) → from ≤ i
    → i < n
    → settled (run i) ≡ false
before-suc run from n q h i a b = elim (Bool-cases (leb (suc from) i)) [
  | inl e ↦ h i (ground (arith, e)) b
  | inr e ↦ let same : from ≡ i = ground (arith, e) in subst (λ j. settled (run j) ≡ false) same q
]

attempts_lem :
    (run : ℕ → AgentOutput) (left from : ℕ)
    → (n : ℕ) × (attempts run (suc left) from (total run from) ≡ some (last_attempt run n))
      × Outcome run from left n
unfolding attempts
attempts_lem run zero from = elim (Bool-cases (settled (run from))) [
  | inl q ↦ (from, rw q refl, (omega arith, omega arith, none-before run from, inl q))
  | inr q ↦ (from, rw q refl, (omega arith, omega arith, none-before run from, inr (omega arith)))
]
attempts_lem run (suc left) from = elim (Bool-cases (settled (run from))) [
  | inl q ↦ (from, rw q refl, (omega arith, omega arith, none-before run from, inl q))
  | inr q ↦
      let more : leb (suc left) 0 ≡ false = ground arith in
      let (n, e, (a, b, before, last)) = attempts_lem run left (suc from) in
      (
        n,
        rw (q, more) e,
        (
          omega arith,
          omega arith,
          before-suc run from n q before,
          elim last [ inl s ↦ inl s | inr s ↦ inr (omega arith) ],
        ),
      )
]

-- The number of retries that a policy allows.
abbrev pub retries : Option RetryPolicy → ℕ
retries none = 0
retries (some p) = p.max_retries

max_attempts-retries :
    (policy : Option RetryPolicy)
    → retries policy + 1 < u32_bound
    → max_attempts policy ≡ suc (retries policy)
unfolding max_attempts
max_attempts-retries none h = refl
max_attempts-retries (some p) h = omega arith

-- When the number of retries can be added to 1 in 32 bits, the retry loop returns the output of
-- one attempt n, at most the number of retries: no earlier attempt succeeded or asked for an
-- interrupt, attempt n did so or was the last that the policy allows, and the metrics are those of
-- all attempts up to n, accumulated.
pub execute_with_retry_lem :
    (run : ℕ → AgentOutput) (policy : Option RetryPolicy)
    → retries policy + 1 < u32_bound
    → (n : ℕ) × (execute_with_retry run policy ≡ some (last_attempt run n))
      × (n ≤ retries policy)
      × ((i : ℕ) → i < n → settled (run i) ≡ false)
      × ((settled (run n) ≡ true) ⊎ (n ≡ retries policy))
unfolding execute_with_retry
execute_with_retry_lem run policy h =
    let (n, e, (a, b, before, last)) = attempts_lem run (retries policy) 0 in
    (
      n,
      rw (max_attempts-retries policy h) e,
      omega arith,
      λ i l. before i (omega arith) l,
      elim last [ inl s ↦ inl s | inr s ↦ inr (omega arith) ],
    )
