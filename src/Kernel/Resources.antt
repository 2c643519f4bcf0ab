-- ===== src/Kernel/Resources.antt =====
-- The usage of each user over all runs (src/kernel/resources.rs).
pub mod Cleanup
use jeeves_core.Prelude.{
  ℕ, zero, suc, ◌+◌, ◌-◌, ◌≤◌, String, ◌≡◌, refl, sym, ap, ◌∙◌, Bool, true, false, Option, none,
  some, unwrap_or, List, [], ◌∷◌, length, arith, ltb, ◌==◌, eq_iff, All, Bool-cases, inl, inr,
  if◌then◌else◌,
}
use jeeves_core.Prelude.Int.{ℤ, pos, add_i32, add_i64}
use jeeves_core.Prelude.Dict
use jeeves_core.Prelude.Dict.{Dict, keys, values}
use jeeves_core.Types.{UserId}
use jeeves_core.Workflow.{contains}
use jeeves_core.Kernel.Quota.{ResourceUsage, no_usage}

pub record ResourceTracker : Type 0 where
  pub user_usage : Dict ResourceUsage

abbrev pub new : ResourceTracker
new = record { user_usage = [] }

abbrev pub get_user_usage : UserId → ResourceTracker → Option ResourceUsage
get_user_usage user t = Dict.get t.user_usage user

-- The four additions of `record_usage`.
unfoldable pub add_usage : ℤ → ℤ → ℤ → ℤ → ResourceUsage → ResourceUsage
add_usage llm_calls tool_calls tokens_in tokens_out u = record u {
  llm_calls = add_i32 u.llm_calls llm_calls;
  tool_calls = add_i32 u.tool_calls tool_calls;
  tokens_in = add_i64 u.tokens_in tokens_in;
  tokens_out = add_i64 u.tokens_out tokens_out;
}

unfoldable pub record_usage : UserId → ℤ → ℤ → ℤ → ℤ → ResourceTracker → ResourceTracker
record_usage user llm_calls tool_calls tokens_in tokens_out t = record {
  user_usage = Dict.insert t.user_usage user (
      add_usage llm_calls tool_calls tokens_in tokens_out
        (unwrap_or no_usage (Dict.get t.user_usage user)));
}

abbrev pub clear_user_usage : UserId → ResourceTracker → ResourceTracker
clear_user_usage user t = record { user_usage = Dict.remove t.user_usage user }

-- `retain(|uid, _| active_user_ids.contains(uid))`.
unfoldable pub retain {ℓ} : {V : Type ℓ} → List UserId → Dict V → Dict V
retain active [] = []
retain active ((user, v) ∷ d) =
    let rest = retain active d in if contains active user then (user, v) ∷ rest else rest

-- `keys().take(n)`.
unfoldable pub first_keys {ℓ} : {V : Type ℓ} → ℕ → Dict V → List UserId
first_keys zero d = []
first_keys (suc n) [] = []
first_keys (suc n) ((user, v) ∷ d) = user ∷ first_keys n d

unfoldable pub remove_users {ℓ} : {V : Type ℓ} → List UserId → Dict V → Dict V
remove_users [] d = d
remove_users (user ∷ users) d = remove_users users (Dict.remove d user)

-- The cap: the excess over `max_entries` is removed.
unfoldable pub cap_entries {ℓ} : {V : Type ℓ} → ℕ → Dict V → Dict V
unfolding first_keys remove_users
cap_entries max_entries d =
    if ltb max_entries (length d) then remove_users (first_keys (length d - max_entries) d) d else d

unfoldable pub cleanup_stale_users : List UserId → ℕ → ResourceTracker → ℕ × ResourceTracker
unfolding retain cap_entries
cleanup_stale_users active max_entries t =
    let kept = cap_entries max_entries (retain active t.user_usage) in
    (length t.user_usage - length kept, record { user_usage = kept })

-- One turn of the loop of `total_usage`; the elapsed time is not added.
abbrev add_total : ResourceUsage → ResourceUsage → ResourceUsage
add_total total u = record total {
  llm_calls = add_i32 total.llm_calls u.llm_calls;
  tool_calls = add_i32 total.tool_calls u.tool_calls;
  agent_hops = add_i32 total.agent_hops u.agent_hops;
  iterations = add_i32 total.iterations u.iterations;
  tokens_in = add_i64 total.tokens_in u.tokens_in;
  tokens_out = add_i64 total.tokens_out u.tokens_out;
}

total_from : ResourceUsage → List ResourceUsage → ResourceUsage
total_from total [] = total
total_from total (u ∷ us) = total_from (add_total total u) us

unfoldable pub total_usage : ResourceTracker → ResourceUsage
unfolding total_from
total_usage t = total_from no_usage (values t.user_usage)

-- What is recorded for one user is added to that user's usage, from zero for a new user, and no
-- other user's usage changes.
pub record_usage_effect :
    (user other : UserId) (llm_calls tool_calls tokens_in tokens_out : ℤ) (t : ResourceTracker)
    → get_user_usage other (record_usage user llm_calls tool_calls tokens_in tokens_out t) ≡ (
        if user == other
        then some (
            add_usage llm_calls tool_calls tokens_in tokens_out
              (unwrap_or no_usage (get_user_usage user t)))
        else get_user_usage other t)
unfolding record_usage
record_usage_effect user other a b c d t = Dict.get-insert t.user_usage user other _
