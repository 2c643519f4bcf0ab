-- ===== src/Tests/Inputs.antt =====
-- Runs that come from outside.
use jeeves_core.Prelude.{◌≡◌, refl, ◌↔◌}
use jeeves_core.Prelude.Int.{negsuc}
use jeeves_core.Types.{ok, err, validation, plain}
use jeeves_core.Run
use jeeves_core.Run.{Run, validate}
use jeeves_core.Run.Validity.{IsWellFormed, validate_run_iff}
use jeeves_core.Tests.{fresh_run}

validate_run_iff_example : (validate fresh_run ≡ ok tt) ↔ IsWellFormed fresh_run
validate_run_iff_example = validate_run_iff fresh_run

fresh_accepted : validate fresh_run ≡ ok tt
unfolding validate Run.new
fresh_accepted = refl

abbrev negative_hops : Run
negative_hops = record fresh_run { metrics = record fresh_run.metrics { agent_hops = negsuc 0 } }

negative_refused :
    validate negative_hops ≡ err (validation (plain "bounds.agent_hop_count must be non-negative"))
unfolding validate Run.new
negative_refused = refl
