-- ===== src/Agent/Providers/Attempts.antt =====
-- What the retries of a call to a language model return (src/agent/llm/genai_provider.rs).
use jeeves_core.Prelude.{
  ℕ, String, zero, suc, ◌+◌, ◌≤◌, ◌<◌, ◌≡◌, refl, ap, ◌∙◌, subst, ◌↔◌, ◌⊎◌, inl, inr, Bool, true,
  false, ◌&&◌, Option, none, some, unwrap_or, List, [], ◌∷◌, map, arith, is_eq, leb, ltb,
  Bool-cases,
}
use jeeves_core.Prelude.Int.{pos}
use jeeves_core.Types.{Result, Error, Piece, ok, err}
use jeeves_core.Agent.Messages.{ToolCall, ChatRequest, ChatResponse}
use jeeves_core.Agent.Providers.{
  Crate, GenaiResult, GenaiReply, GenaiToolCall, GenaiError, GenaiProvider, display, answered,
  failed, http_error, web_adapter_call, web_model_call, web_stream, other_error, resolve_model,
}
use jeeves_core.Agent.Providers.Building.{build_request, build_options}
use jeeves_core.Agent.Providers.Calls.{
  Attempted, max_retries, backoff, llm_error, is_transient, chat_attempts, chat,
}
use jeeves_core.Agent.Providers.Replies.{convert_usage, convert_tool_call, convert_reply}

abbrev outcome_of : GenaiResult GenaiReply → Result ChatResponse
outcome_of (answered resp) = ok (convert_reply resp)
outcome_of (failed e) = err (llm_error e)

-- The tool calls of a reply, as a response has them.
abbrev pub tool_calls_of : List GenaiToolCall → List ToolCall
tool_calls_of [] = []
tool_calls_of (tc ∷ tcs) =
    record { id = tc.call_id; name = tc.fn_name; arguments = tc.fn_arguments } ∷ tool_calls_of tcs

-- What one answer of the client makes the call return.
abbrev pub reply : GenaiResult GenaiReply → Result ChatResponse
reply (answered resp) = ok (record {
  content = resp.first_text;
  tool_calls = tool_calls_of resp.tool_calls;
  usage = record {
    prompt_tokens = unwrap_or (pos 0) resp.usage.prompt_tokens;
    completion_tokens = unwrap_or (pos 0) resp.usage.completion_tokens;
    total_tokens = unwrap_or (pos 0) resp.usage.total_tokens;
  };
  model = resp.model_name;
})
reply (failed e) = err (Error.internal (Piece.text "LLM error: " ∷ Piece.text (display e) ∷ []))

map-tool_calls_of : (tcs : List GenaiToolCall) → map convert_tool_call tcs ≡ tool_calls_of tcs
unfolding convert_tool_call
map-tool_calls_of [] = refl
map-tool_calls_of (tc ∷ tcs) = ap (λ r. convert_tool_call tc ∷ r) (map-tool_calls_of tcs)

outcome_of-reply : (a : GenaiResult GenaiReply) → outcome_of a ≡ reply a
unfolding convert_reply convert_usage
outcome_of-reply (answered resp) =
    ap (λ tcs. ok (record (convert_reply resp) { tool_calls = tcs }))
      (map-tool_calls_of resp.tool_calls)
outcome_of-reply (failed e) = refl

-- The milliseconds slept before the answer n, one delay for each attempt before it.
abbrev pub delays : ℕ → List ℕ
delays zero = []
delays (suc zero) = 500 ∷ []
delays (suc (suc n)) = 500 ∷ 1000 ∷ []

-- The delays before the attempts after `attempt`, as many as there are.
abbrev backoffs : ℕ → ℕ → List ℕ
backoffs attempt zero = []
backoffs attempt (suc n) = backoff attempt ∷ backoffs (suc attempt) n

backoffs-delays : (n : ℕ) → n < max_retries → backoffs 0 n ≡ delays n
backoffs-delays zero l = refl
backoffs-delays (suc zero) l = refl
backoffs-delays (suc (suc zero)) l = refl
backoffs-delays (suc (suc (suc n))) l = absurd (omega (arith, l))

answer-cases :
    (a : GenaiResult GenaiReply)
    → ((resp : GenaiReply) × (a ≡ answered resp)) ⊎ ((e : GenaiError) × (a ≡ failed e))
answer-cases (answered resp) = inl (resp, refl)
answer-cases (failed e) = inr (e, refl)

-- The test on which the loop goes on.
no_more :
    (b : Bool) (from : ℕ)
    → (b ≡ false) ⊎ (suc from ≡ max_retries)
    → (b && ltb (from + 1) max_retries) ≡ false
no_more b from h = ground (arith, h)

more_left :
    (b : Bool) (from : ℕ)
    → b ≡ true
    → suc from < max_retries
    → (b && ltb (from + 1) max_retries) ≡ true
more_left b from h l = ground (arith, h, l)

module _ {Message Tool Options Request : Type 0} (g : Crate Message Tool Options Request) where
  -- An answer after which the call may try again.
  abbrev passing : GenaiResult GenaiReply → Bool
  passing (answered resp) = false
  passing (failed e) = is_transient g e

  -- The loop from attempt `from` on, with attempts left up to the last, returns on attempt n.
  abbrev Outcome : (ℕ → GenaiResult GenaiReply) → ℕ → Attempted ChatResponse → ℕ → ℕ → Type 0
  Outcome run from tried n k =
      (from + k ≡ n)
      × (n < max_retries)
      × (tried.outcome ≡ outcome_of (run n))
      × (tried.slept ≡ backoffs from k)
      × ((i : ℕ) → from ≤ i → i < n → passing (run i) ≡ true)
      × ((passing (run n) ≡ false) ⊎ (suc n ≡ max_retries))

  passing-before :
      (run : ℕ → GenaiResult GenaiReply) (from n : ℕ)
      → passing (run from) ≡ true
      → ((i : ℕ) → suc from ≤ i → i < n → passing (run i) ≡ true)
      → (i : ℕ) → from ≤ i
      → i < n
      → passing (run i) ≡ true
  passing-before run from n q h i a b = elim (Bool-cases (leb (suc from) i)) [
    | inl e ↦ h i (ground (arith, e)) b
    | inr e ↦ let same : from ≡ i = ground (arith, e) in subst (λ j. passing (run j) ≡ true) same q
  ]

  none-before :
      (run : ℕ → GenaiResult GenaiReply) (n i : ℕ) → n ≤ i → i < n → passing (run i) ≡ true
  none-before run n i h l = absurd (omega arith)

  abbrev ended : GenaiResult GenaiReply → Attempted ChatResponse
  ended answer = record { slept = []; outcome = outcome_of answer }

  abbrev continued : ℕ → Attempted ChatResponse → Attempted ChatResponse
  continued from rest = record { slept = backoff from ∷ rest.slept; outcome = rest.outcome }

  -- An attempt that ends the loop.
  ends_here :
      (run : ℕ → GenaiResult GenaiReply) (from : ℕ) (tried : Attempted ChatResponse)
      → from < max_retries
      → tried ≡ ended (run from)
      → (passing (run from) ≡ false) ⊎ (suc from ≡ max_retries)
      → Outcome run from tried from 0
  ends_here run from tried l e last =
      (omega arith, l, ap (λ t. t.outcome) e, ap (λ t. t.slept) e, none-before run from, last)

  -- An attempt that is followed by others.
  goes_on :
      (run : ℕ → GenaiResult GenaiReply) (from n k : ℕ) (rest tried : Attempted ChatResponse)
      → passing (run from) ≡ true
      → tried ≡ continued from rest
      → Outcome run (suc from) rest n k
      → Outcome run from tried n (suc k)
  goes_on run from n k rest tried q e (a, l, outcome, slept, before, last) = (
    omega arith,
    l,
    ap (λ t. t.outcome) e ∙ outcome,
    ap (λ t. t.slept) e ∙ ap (λ s. backoff from ∷ s) slept,
    passing-before run from n q before,
    last,
  )

  -- One round of the loop.
  attempt-settled :
      (run : ℕ → GenaiResult GenaiReply) (left from : ℕ) (last_err : Option GenaiError)
      → (passing (run from) ≡ false) ⊎ (suc from ≡ max_retries)
      → chat_attempts g run (suc left) from last_err ≡ ended (run from)
  unfolding chat_attempts
  attempt-settled run left from last_err h = elim (answer-cases (run from)) [
    | inl (resp, q) ↦ rw (q, chat_attempts) refl
    | inr (e, q) ↦
        let stop = no_more (is_transient g e) from (rw q at h) in rw (q, chat_attempts, stop) refl
  ]

  attempt-passing :
      (run : ℕ → GenaiResult GenaiReply) (left from : ℕ) (last_err : Option GenaiError)
      → passing (run from) ≡ true
      → suc from < max_retries
      → (e : GenaiError) × (chat_attempts g run (suc left) from last_err
          ≡ continued from (chat_attempts g run left (suc from) (some e)))
  unfolding chat_attempts
  attempt-passing run left from last_err h l = elim (answer-cases (run from)) [
    | inl (resp, q) ↦ let no : false ≡ true = rw q at h in absurd (cc)
    | inr (e, q) ↦
        let go = more_left (is_transient g e) from (rw q at h) l in
        (e, rw (q, chat_attempts, go) refl)
  ]

  chat_attempts_lem :
      (run : ℕ → GenaiResult GenaiReply) (left from : ℕ) (last_err : Option GenaiError)
      → from + suc left ≡ max_retries
      → (n : ℕ) × (k : ℕ) × Outcome run from (chat_attempts g run (suc left) from last_err) n k
  chat_attempts_lem run zero from last_err h =
      let last : suc from ≡ max_retries = omega arith in
      let e = attempt-settled run zero from last_err (inr last) in
      (from, 0, ends_here run from _ (omega arith) e (inr last))
  chat_attempts_lem run (suc left) from last_err h = elim (Bool-cases (passing (run from))) [
    | inr q ↦
        let e = attempt-settled run (suc left) from last_err (inl q) in
        (from, 0, ends_here run from _ (omega arith) e (inl q))
    | inl q ↦
        let (e, step) = attempt-passing run (suc left) from last_err q (omega arith) in
        let (n, k, o) = chat_attempts_lem run left (suc from) (some e) (omega arith) in
        (n, suc k, goes_on run from n k _ _ q step o)
  ]

  -- An error that may pass: the server refuses for the rate, by the crate's classification it failed,
  -- or the transport did.
  abbrev pub MayPass : GenaiError → Type 0
  MayPass (http_error status body) = (status ≡ 429) ⊎ (g.is_server_error status ≡ true)
  MayPass (web_adapter_call s) = Unit
  MayPass (web_model_call s) = Unit
  MayPass (web_stream s) = Unit
  MayPass (other_error s) = ⊥

  -- An answer after which the call may try again.
  abbrev pub IsPassing : GenaiResult GenaiReply → Type 0
  IsPassing (answered resp) = ⊥
  IsPassing (failed e) = MayPass e

  passing-IsPassing : (a : GenaiResult GenaiReply) → (passing a ≡ true) ↔ IsPassing a
  unfolding is_transient
  passing-IsPassing (answered resp) = (λ h. cc, λ h. absurd h)
  passing-IsPassing (failed (http_error status body)) = (
    λ h. elim (Bool-cases (is_eq status 429)) [
      | inl q ↦ inl (ground (arith, q))
      | inr q ↦ inr (ground (arith, q, h))
    ],
    λ h. elim h [ inl q ↦ ground (arith, q) | inr q ↦ ground (arith, q) ],
  )
  passing-IsPassing (failed (web_adapter_call s)) = (λ h. tt, λ h. refl)
  passing-IsPassing (failed (web_model_call s)) = (λ h. tt, λ h. refl)
  passing-IsPassing (failed (web_stream s)) = (λ h. tt, λ h. refl)
  passing-IsPassing (failed (other_error s)) = (λ h. cc, λ h. absurd h)

  settled-last :
      (a : GenaiResult GenaiReply) (n : ℕ)
      → (passing a ≡ false) ⊎ (suc n ≡ max_retries)
      → (¬ IsPassing a) ⊎ (suc n ≡ 3)
  settled-last a n (inl q) = inl (λ p. let r = (passing-IsPassing a).1 p in cc)
  settled-last a n (inr q) = inr q

  -- A call returns what one answer n of the client makes of it, the first or second or third: each
  -- answer before it was an error that may pass, a limit on the rate with the status 429, a failure
  -- of the server or one of the transport, and answer n was not or was the third. A reply becomes a
  -- response with its text, its model, its tool calls one by one, and its usage with nothing counted
  -- where nothing is reported, and a failure an error with its message. The call slept 500
  -- milliseconds before the second attempt, and 1000 before the third.
  pub chat_lem :
      (exec_chat : String → Request → Options → ℕ → GenaiResult GenaiReply) (p : GenaiProvider)
      (req : ChatRequest)
      → let run = exec_chat (resolve_model g p req) (build_request g req) (build_options g req) in
        (n : ℕ) × (n < 3)
        × ((chat g exec_chat p req).outcome ≡ reply (run n))
        × ((chat g exec_chat p req).slept ≡ delays n)
        × ((i : ℕ) → i < n → IsPassing (run i))
        × ((¬ IsPassing (run n)) ⊎ (suc n ≡ 3))
  unfolding chat
  chat_lem exec_chat p req =
      let run = exec_chat (resolve_model g p req) (build_request g req) (build_options g req) in
      let (n, k, (a, l, outcome, slept, before, last)) = chat_attempts_lem run 2 0 none refl in
      let same : k ≡ n = omega arith in
      (
        n,
        l,
        outcome ∙ outcome_of-reply (run n),
        slept ∙ ap (backoffs 0) same ∙ backoffs-delays n l,
        λ i b. (passing-IsPassing (run i)).0 (before i (omega arith) b),
        settled-last (run n) n last,
      )
