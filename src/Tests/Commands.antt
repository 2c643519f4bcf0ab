-- ===== src/Tests/Commands.antt =====
-- The commands of a run, from its start to its end.
use jeeves_core.Prelude.{◌≡◌, refl, none, List, [], ◌∷◌, true, false}
use jeeves_core.Prelude.Int.{pos}
use jeeves_core.Prelude.Dict
use jeeves_core.Json.{object, end}
use jeeves_core.Types.{Timestamp}
use jeeves_core.Kernel.Dispatch.{Kernel, with_quota}
use jeeves_core.Kernel.Actor.{
  KernelCommand, initialize_session, next_instruction, agent_result, new_run, end_run,
  run_kernel_actor,
}
use jeeves_core.Kernel.Dispatch.Apart.{Untouched}
use jeeves_core.Kernel.Actor.Apart.{run_kernel_actor-Untouched}
use jeeves_core.Kernel.Actor.Gone.{is_refusal, step, later, ended_run_refused}
use jeeves_core.Kernel.Actor.Paired.{IsPaired, run_kernel_actor-IsPaired}
use jeeves_core.Kernel.Actor.Recorded.{Recorded, run_kernel_actor-Recorded}
use jeeves_core.Kernel.Dispatch.Sound.{AllSound}
use jeeves_core.Kernel.Actor.Sound.{run_kernel_actor-AllSound}
use jeeves_core.Tests.{
  fresh, workflow-Fits, workflow, fresh_run, response_value, run_value, metrics,
}
use jeeves_core.Tests.Tooling.{config, floats}

abbrev pub empty_kernel : Kernel
empty_kernel = with_quota config none

abbrev commands : List (Timestamp × KernelCommand)
commands =
    (pos 1, initialize_session "r1" workflow fresh_run false)
    ∷ (pos 2, next_instruction "r1")
    ∷ (pos 3, agent_result "r1" "writer" (object end) none metrics true "" false)
    ∷ (pos 4, next_instruction "r1")
    ∷ (pos 5, end_run "r1")
    ∷ []

empty-Recorded : Recorded empty_kernel
unfolding Dict.get
empty-Recorded = record { apply = λ id h. cc }

run_kernel_actor-Recorded_example :
    Recorded
      (run_kernel_actor run_value response_value floats (λ names. names) commands empty_kernel).1
run_kernel_actor-Recorded_example =
    run_kernel_actor-Recorded run_value response_value floats (λ names. names) commands empty_kernel
      empty-Recorded

empty-IsPaired : IsPaired empty_kernel
unfolding Dict.get
empty-IsPaired = record { apply = λ id. refl }

run_kernel_actor-IsPaired_example :
    IsPaired
      (run_kernel_actor run_value response_value floats (λ names. names) commands empty_kernel).1
run_kernel_actor-IsPaired_example =
    run_kernel_actor-IsPaired run_value response_value floats (λ names. names) commands empty_kernel
      empty-IsPaired

abbrev driven : List (Timestamp × KernelCommand)
driven =
    (pos 1, initialize_session "r1" workflow fresh_run false)
    ∷ (pos 2, next_instruction "r1")
    ∷ (pos 3, agent_result "r1" "writer" (object end) none metrics true "" false)
    ∷ []

empty-AllSound : AllSound empty_kernel
unfolding Dict.get
empty-AllSound = record { apply = λ id run h t. cc }

run_kernel_actor-AllSound_example :
    AllSound
      (run_kernel_actor run_value response_value floats (λ names. names) driven empty_kernel).1
run_kernel_actor-AllSound_example =
    run_kernel_actor-AllSound run_value response_value floats (λ names. names) driven empty_kernel
      ((fresh, workflow-Fits), (tt, (tt, tt))) empty-AllSound

-- A client that does not know that its run was ended, and another that starts a run of its own.
abbrev running_kernel : Kernel
running_kernel =
    (run_kernel_actor run_value response_value floats (λ names. names) driven empty_kernel).1

abbrev others : List (Timestamp × KernelCommand)
others =
    (pos 6, new_run "r1" "q1" "u1" "s1")
    ∷ (pos 7, initialize_session "r2" workflow fresh_run false)
    ∷ (pos 8, next_instruction "r2")
    ∷ []

abbrev late_report : KernelCommand
late_report = agent_result "r1" "writer" (object end) none metrics true "" false

ended_run_refused_example :
    is_refusal
      (step run_value response_value floats
        (λ names. names)
        (pos 9)
        late_report
        (later run_value response_value floats
          (λ names. names)
          others
          (step run_value response_value floats
            (λ names. names)
            (pos 5)
            (end_run "r1")
            running_kernel).1)).0
    ≡ true
ended_run_refused_example =
    ended_run_refused run_value response_value floats (λ names. names) "r1" (pos 5) (pos 9)
      (end_run "r1") late_report others running_kernel refl (refl, (refl, (refl, tt))) refl

-- Commands for another run, some of which end in an error.
abbrev elsewhere : List (Timestamp × KernelCommand)
elsewhere =
    (pos 5, initialize_session "r2" workflow fresh_run false)
    ∷ (pos 6, agent_result "r3" "writer" (object end) none metrics true "" false)
    ∷ (pos 7, next_instruction "r2")
    ∷ (pos 8, end_run "r2")
    ∷ []

run_kernel_actor-Untouched_example :
    Untouched "r1" running_kernel
      (run_kernel_actor run_value response_value floats (λ names. names) elsewhere running_kernel).1
run_kernel_actor-Untouched_example =
    run_kernel_actor-Untouched run_value response_value floats (λ names. names) "r1" elsewhere
      running_kernel (refl, (refl, (refl, (refl, tt))))
