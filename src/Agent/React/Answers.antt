-- ===== src/Agent/React/Answers.antt =====
-- Every call that the model makes is answered (src/agent/mod.rs).
use mathlib.Core.List.{◌++◌ as append, append_assoc, append-nil}
use jeeves_core.Prelude.{◌≡◌, refl, sym, ap, subst, ◌∙◌, Option, none, some, List, [], ◌∷◌, map}
use jeeves_core.Kernel.Protocol.{ToolCallResult}
use jeeves_core.Tools.Executor.{ConfirmationRequest}
use jeeves_core.Agent.{AgentContext, Moment}
use jeeves_core.Agent.Messages.{ToolCall, ChatMessage}
use jeeves_core.Agent.Loop.{LlmAgent, Environment, Loop, Flow, next, leave, return, and_next}
use jeeves_core.Agent.Calls.{settle, turn, call_tool, call_tools}

-- The messages and the results that answer the calls, one each and in their order.
abbrev pub Answered : List ToolCall → Loop → Loop → Type 0
Answered tcs s s' =
    (answers : List ChatMessage) × (results : List ToolCallResult) × (s'.messages
      ≡ append s.messages answers)
    × (s'.tool_results ≡ append s.tool_results results)
    × (map (λ (m : ChatMessage). m.tool_call_id) answers ≡ map (λ (tc : ToolCall). some tc.id) tcs)
    × (map (λ (m : ChatMessage). m.role) answers ≡ map (λ (tc : ToolCall). "tool") tcs)
    × (map (λ (r : ToolCallResult). r.name) results ≡ map (λ (tc : ToolCall). tc.name) tcs)

-- Where the flow goes on, the calls have been answered.
abbrev OnNext : (Loop → Type 0) → Flow → Type 0
OnNext P (next s) = P s
OnNext P (leave s) = Unit
OnNext P (return o s) = Unit

turn-Answered :
    (env : Environment) (a : LlmAgent) (ctx : AgentContext) (tc : ToolCall) (at : Moment) (s : Loop)
    (o : Option ConfirmationRequest)
    → OnNext (Answered (tc ∷ []) s) (turn env a ctx tc at s o)
unfolding turn settle
turn-Answered env a ctx tc at s none = (_, _, refl, refl, refl, refl, refl)
turn-Answered env a ctx tc at s (some c) = tt

map-append {ℓ κ} :
    {A : Type ℓ} {B : Type κ} (f : A → B) (xs ys : List A)
    → map f (append xs ys) ≡ append (map f xs) (map f ys)
map-append f [] ys = refl
map-append f (x ∷ xs) ys = ap (λ zs. f x ∷ zs) (map-append f xs ys)

Answered-cons :
    (tc : ToolCall) (tcs : List ToolCall) (s t u : Loop)
    → Answered (tc ∷ []) s t
    → Answered tcs t u
    → Answered (tc ∷ tcs) s u
Answered-cons tc tcs s t u (ms, rs, m, r, id, role, name) (ms', rs', m', r', id', role', name') = (
  append ms ms',
  append rs rs',
  m' ∙ ap (λ xs. append xs ms') m ∙ append_assoc s.messages ms ms',
  r' ∙ ap (λ xs. append xs rs') r ∙ append_assoc s.tool_results rs rs',
  map-append (λ (m : ChatMessage). m.tool_call_id) ms ms' ∙ ap2 id id',
  map-append (λ (m : ChatMessage). m.role) ms ms' ∙ ap2 role role',
  map-append (λ (r : ToolCallResult). r.name) rs rs' ∙ ap2 name name',
)
  where
    ap2 :
        {A : Type 0} {xs ys : List A} {x : A} {zs : List A}
        → xs ≡ x ∷ []
        → ys ≡ zs
        → append xs ys ≡ x ∷ zs
    ap2 p q = rw (p, q) refl

Answered-calls :
    (env : Environment) (a : LlmAgent) (ctx : AgentContext) (tcs : List ToolCall) (s : Loop)
    → OnNext (Answered tcs s) (call_tools env a ctx tcs s)
unfolding call_tools call_tool
Answered-calls env a ctx [] s =
    ([], [], sym (append-nil s.messages), sym (append-nil s.tool_results), refl, refl, refl)
Answered-calls env a ctx (tc ∷ tcs) s =
    follow (call_tool env a ctx tc s) (turn-Answered env a ctx tc _ _ _)
      (λ t. Answered-calls env a ctx tcs t)
  where
    follow :
        (f : Flow)
        → OnNext (Answered (tc ∷ []) s) f
        → ((t : Loop) → OnNext (Answered tcs t) (call_tools env a ctx tcs t))
        → OnNext (Answered (tc ∷ tcs) s) (and_next f (λ t. call_tools env a ctx tcs t))
    follow (next t) h k = last (call_tools env a ctx tcs t) (k t)
      where
        last : (f : Flow) → OnNext (Answered tcs t) f → OnNext (Answered (tc ∷ tcs) s) f
        last (next u) g = Answered-cons tc tcs s t u h g
        last (leave u) g = tt
        last (return o u) g = tt
    follow (leave t) h k = tt
    follow (return o t) h k = tt

-- When the calls of one response leave the loop going on, each call has been answered: it has
-- exactly one message of the role "tool" with its identifier and one result with its name, in the
-- order of the calls and after all messages and results that were there before.
pub call_tools-Answered :
    (env : Environment) (a : LlmAgent) (ctx : AgentContext) (tcs : List ToolCall) (s s' : Loop)
    → call_tools env a ctx tcs s ≡ next s'
    → Answered tcs s s'
call_tools-Answered env a ctx tcs s s' h =
    subst (OnNext (Answered tcs s)) h (Answered-calls env a ctx tcs s)
