-- ===== src/Agent/React/Rounds.antt =====
-- How often the model is asked (src/agent/mod.rs).
use jeeves_core.Prelude.{
  ℕ, zero, suc, ◌+◌, ◌≤◌, ◌<◌, ◌≡◌, refl, ◌∙◌, String, Option, none, some, List, [], ◌∷◌, arith,
  inl, inr, Bool-cases, Option-cases,
}
use jeeves_core.Prelude.Int.{
  ℤ, pos, ◌+ℤ◌, +ℤ_parts, eq_of_parts, ltb_ℤ, IsI32, add_i32, add_i32-eq_add, half_i32,
}
use jeeves_core.Json.{Value}
use jeeves_core.Types.{Error, Result, ok, err}
use jeeves_core.Workflow.{ContextOverflow}
use jeeves_core.Tools.Registry.{ToolRegistry}
use jeeves_core.Tools.Executor.{ConfirmationRequest}
use jeeves_core.Agent.{AgentOutput, AgentContext, Moment, make_error_output}
use jeeves_core.Agent.Messages.{ToolCall, ChatResponse, StreamChunk, collect_stream}
use jeeves_core.Agent.Messages.Window.{estimate}
use jeeves_core.Agent.Loop.{
  LlmAgent, Environment, Loop, Flow, next, leave, return, and_next, overflow, check_window,
  overflow_output,
}
use jeeves_core.Agent.Calls.{settle, awaiting, turn, call_tool, call_tools}
use jeeves_core.Agent.React.{
  before_llm, request_of, take_calls, take_response, fail_model, take_stream, open_stream,
  ask_model, round, finish, ended, rounds, process,
}

-- What holds where a flow goes on, where it leaves the loop and where it returns.
abbrev pub Post : (Loop → Type 0) → (Loop → Type 0) → (AgentOutput → Type 0) → Flow → Type 0
Post P L Q (next s) = P s
Post P L Q (leave s) = L s
Post P L Q (return o s) = Q o

Post-and_next :
    (P R L : Loop → Type 0) (Q : AgentOutput → Type 0) (f : Flow) (g : Loop → Flow)
    → Post P L Q f
    → ((s : Loop) → P s → Post R L Q (g s))
    → Post R L Q (and_next f g)
Post-and_next P R L Q (next s) g h k = k s h
Post-and_next P R L Q (leave s) g h k = h
Post-and_next P R L Q (return o s) g h k = h

abbrev Calls : ℤ → Loop → Type 0
Calls k s = s.llm_calls ≡ k

-- The output counts at most m calls of the model.
abbrev pub AtMost : ℕ → AgentOutput → Type 0
AtMost m o = (k : ℕ) × (k ≤ m) × (o.metrics.llm_calls ≡ pos k)

overflow-Post :
    (env : Environment) (c : ContextOverflow) (limit : ℤ) (s : Loop) (n : ℕ) (L : Loop → Type 0)
    → Calls (pos n) s
    → Post (Calls (pos n)) L (AtMost (suc n)) (overflow env c limit s)
unfolding overflow overflow_output
overflow-Post env ContextOverflow.fail limit s n L h = (n, omega arith, h)
overflow-Post env ContextOverflow.truncate_oldest limit s n L h = h

check_window-Post :
    (env : Environment) (ctx : AgentContext) (s : Loop) (n : ℕ) (L : Loop → Type 0)
    → Calls (pos n) s
    → Post (Calls (pos n)) L (AtMost (suc n)) (check_window env ctx s)
unfolding check_window
check_window-Post env ctx s n L h = elim (Option-cases ctx.max_context_tokens) [
  | inl e ↦ rw e h
  | inr (limit, e) ↦ elim (Bool-cases (ltb_ℤ limit (pos (estimate s.messages)))) [
    | inl q ↦ rw (e, q) (overflow-Post env _ limit s n L h)
    | inr q ↦ rw (e, q) h
  ]
]

-- After n calls of the model, the parts of a round count no more of them.
abbrev Same : ℕ → Flow → Type 0
Same n f = Post (Calls (pos n)) (Calls (pos n)) (AtMost n) f

turn-Same :
    (env : Environment) (a : LlmAgent) (ctx : AgentContext) (tc : ToolCall) (at : Moment) (s : Loop)
    (o : Option ConfirmationRequest) (n : ℕ)
    → Calls (pos n) s
    → Same n (turn env a ctx tc at s o)
unfolding turn settle awaiting
turn-Same env a ctx tc at s none n h = h
turn-Same env a ctx tc at s (some c) n h = (n, omega arith, h)

call_tools-Same :
    (env : Environment) (a : LlmAgent) (ctx : AgentContext) (tcs : List ToolCall) (s : Loop) (n : ℕ)
    → Calls (pos n) s
    → Same n (call_tools env a ctx tcs s)
unfolding call_tools call_tool
call_tools-Same env a ctx [] s n h = h
call_tools-Same env a ctx (tc ∷ tcs) s n h =
    Post-and_next _ _ _ _ (call_tool env a ctx tc s) _ (turn-Same env a ctx tc _ _ _ n h)
      (λ s' k. call_tools-Same env a ctx tcs s' n k)

take_calls-Same :
    (env : Environment) (a : LlmAgent) (ctx : AgentContext) (resp : ChatResponse)
    (tcs : List ToolCall) (s : Loop) (n : ℕ)
    → Calls (pos n) s
    → Same n (take_calls env a ctx resp tcs s)
unfolding take_calls
take_calls-Same env a ctx resp [] s n h = h
take_calls-Same env a ctx resp (tc ∷ tcs) s n h =
    Post-and_next _ _ _ _ (call_tools env a ctx (tc ∷ tcs) _) _
      (call_tools-Same env a ctx (tc ∷ tcs) _ n h) (λ s' k. k)

one-more : (n : ℕ) (k : ℤ) → suc n < half_i32 → k ≡ pos n → add_i32 k (pos 1) ≡ pos (suc n)
one-more n k room h =
    let sum : pos n +ℤ pos 1 ≡ pos (suc n) =
      eq_of_parts _ _ (omega (arith, +ℤ_parts (pos n) (pos 1))) in
    let fits : IsI32 (pos n +ℤ pos 1) = rw sum (omega arith, omega arith) in
    rw h (add_i32-eq_add (pos n) (pos 1) fits ∙ sum)

fail_model-Same :
    (env : Environment) (e : Error) (s : Loop) (n : ℕ)
    → suc n < half_i32
    → Calls (pos n) s
    → Same (suc n) (fail_model env e s)
unfolding fail_model make_error_output
fail_model-Same env e s n room h = (suc n, omega arith, one-more n s.llm_calls room h)

take_stream-Same :
    (env : Environment) (a : LlmAgent) (ctx : AgentContext) (r : Result ChatResponse) (s : Loop)
    (n : ℕ)
    → suc n < half_i32
    → Calls (pos n) s
    → Same (suc n) (take_stream env a ctx r s)
unfolding take_stream take_response
take_stream-Same env a ctx (err e) s n room h = fail_model-Same env e s n room h
take_stream-Same env a ctx (ok resp) s n room h =
    take_calls-Same env a ctx _ _ _ (suc n) (one-more n s.llm_calls room h)

open_stream-Same :
    (env : Environment) (a : LlmAgent) (ctx : AgentContext) (r : Result (List (Result StreamChunk)))
    (s : Loop) (n : ℕ)
    → suc n < half_i32
    → Calls (pos n) s
    → Same (suc n) (open_stream env a ctx r s)
unfolding open_stream
open_stream-Same env a ctx (err e) s n room h = fail_model-Same env e s n room h
open_stream-Same env a ctx (ok chunks) s n room h =
    take_stream-Same env a ctx (collect_stream chunks) _ n room h

ask_model-Same :
    (env : Environment) (a : LlmAgent) (ctx : AgentContext) (tool_defs : List Value) (n : ℕ)
    (s : Loop)
    → suc n < half_i32
    → Calls (pos n) s
    → Same (suc n) (ask_model env a ctx tool_defs n s)
unfolding ask_model
ask_model-Same env a ctx tool_defs n s room h =
    let messages = before_llm a.hooks s.messages in
    let stream = env.chat_stream n (request_of a ctx tool_defs messages) in
    open_stream-Same env a ctx stream (record s { messages = messages }) n room h

round-Same :
    (env : Environment) (a : LlmAgent) (ctx : AgentContext) (tool_defs : List Value) (n : ℕ)
    (s : Loop)
    → suc n < half_i32
    → Calls (pos n) s
    → Same (suc n) (round env a ctx tool_defs n s)
unfolding round
round-Same env a ctx tool_defs n s room h =
    Post-and_next _ _ _ _ (check_window env ctx s) _
      (check_window-Post env ctx s n (Calls (pos (suc n))) h)
      (λ s' k. ask_model-Same env a ctx tool_defs n s' room k)

ended-AtMost :
    (env : Environment) (f : Flow) (rest : Loop → AgentOutput × Loop) (n m : ℕ)
    → n ≤ m
    → Same n f
    → ((s : Loop) → Calls (pos n) s → AtMost m (rest s).0)
    → AtMost m (ended env f rest).0
unfolding finish
ended-AtMost env (next s) rest n m l h k = k s h
ended-AtMost env (leave s) rest n m l h k = (n, l, h)
ended-AtMost env (return o s) rest n m l h k = (h.0, omega (arith, h.1), h.2)

rounds-AtMost :
    (env : Environment) (a : LlmAgent) (ctx : AgentContext) (tool_defs : List Value) (left n m : ℕ)
    (s : Loop)
    → left + n ≡ m
    → m < half_i32
    → Calls (pos n) s
    → AtMost m (rounds env a ctx tool_defs left n s).0
unfolding rounds finish
rounds-AtMost env a ctx tool_defs zero n m s e room h = (n, omega arith, h)
rounds-AtMost env a ctx tool_defs (suc left) n m s e room h =
    ended-AtMost env (round env a ctx tool_defs n s) _ (suc n) m (omega arith)
      (round-Same env a ctx tool_defs n s (omega arith) h)
      (λ s' k. rounds-AtMost env a ctx tool_defs left (suc n) m s' (omega arith) room k)

-- Whatever the model, the tools and the hooks answer, the tool loop ends and its output counts at
-- most as many calls of the model as the agent's limit of rounds, when the limit fits in an `i32`.
pub process-AtMost :
    (env : Environment) (prompt_text : String) (a : LlmAgent) (tools : ToolRegistry)
    (ctx : AgentContext)
    → a.max_tool_rounds < half_i32
    → AtMost a.max_tool_rounds (process env prompt_text a tools ctx).0
unfolding process
process-AtMost env prompt_text a tools ctx room =
    rounds-AtMost env a ctx _ a.max_tool_rounds 0 a.max_tool_rounds _ (omega arith) room refl
