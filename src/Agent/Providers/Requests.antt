-- ===== src/Agent/Providers/Requests.antt =====
-- What a request to a provider carries of a conversation (src/agent/llm/genai_provider.rs).
use mathlib.Core.List.{◌++◌ as append}
use jeeves_core.Prelude.{
  String, ◌≡◌, refl, sym, ap, ◌∙◌, inl, inr, Bool, not, Option, some, List, [], ◌∷◌, map, filter,
  arith, ◌==◌, Bool-cases, if◌then◌else◌,
}
use jeeves_core.Prelude.Dict
use jeeves_core.Agent.Messages.{ChatMessage, ChatRequest, as_text_lossy}
use jeeves_core.Agent.Providers.{Crate, GenaiProvider, with_model_role, resolve_model}
use jeeves_core.Agent.Providers.Building.{to_message, add_messages}

abbrev pub is_system : ChatMessage → Bool
is_system msg = msg.role == "system"

-- The text of the last system message, if there is one.
abbrev pub last_system : Option String → List ChatMessage → Option String
last_system sys [] = sys
last_system sys (msg ∷ msgs) =
    last_system (if is_system msg then some (as_text_lossy msg.content) else sys) msgs

abbrev pub spoken : List ChatMessage → List ChatMessage
spoken = filter (λ msg. not (is_system msg))

append_assoc {ℓ} :
    {A : Type ℓ} (xs : List A) (y : A) (ys : List A)
    → append (append xs (y ∷ [])) ys ≡ append xs (y ∷ ys)
append_assoc [] y ys = refl
append_assoc (x ∷ xs) y ys = ap (λ zs. x ∷ zs) (append_assoc xs y ys)

append-nil {ℓ} : {A : Type ℓ} (xs : List A) → append xs [] ≡ xs
append-nil [] = refl
append-nil (x ∷ xs) = ap (λ zs. x ∷ zs) (append-nil xs)

module _ {Message Tool Options Request : Type 0} (g : Crate Message Tool Options Request) where
  -- Every message that is not the system's becomes one message, in their order, and the system's text
  -- is that of the last system message.
  pub add_messages_lem :
      (msgs : List ChatMessage) (sys : Option String) (messages : List Message)
      → add_messages g msgs sys messages
        ≡ (last_system sys msgs, append messages (map (to_message g) (spoken msgs)))
  unfolding add_messages filter
  add_messages_lem [] sys messages = ap (λ m. (sys, m)) (sym (append-nil messages))
  add_messages_lem (msg ∷ msgs) sys messages = elim (Bool-cases (is_system msg)) [
    | inl e ↦
        rw (e, add_messages) (add_messages_lem msgs (some (as_text_lossy msg.content)) messages)
    | inr e ↦
        rw (e, add_messages)
          (add_messages_lem msgs sys (append messages (to_message g msg ∷ []))
            ∙ ap (λ m. (last_system sys msgs, m)) (append_assoc messages _ _))
  ]

  -- A role that was given a model resolves to it, in upper or lower case, and every other name
  -- resolves as before.
  pub resolve_model-with_model_role :
      (p : GenaiProvider) (role model name : String) (req : ChatRequest)
      → resolve_model g (with_model_role g role model p) (record req { model = some name }) ≡ (
          if g.to_lowercase role == g.to_lowercase name
          then model
          else resolve_model g p (record req { model = some name }))
  unfolding resolve_model with_model_role
  resolve_model-with_model_role p role model name req =
      ground
        (arith, Dict.get-insert p.model_roles (g.to_lowercase role) (g.to_lowercase name) model)
