-- ===== src/Agent/Messages/Window.antt =====
-- The estimate of a conversation's size and the truncation of its oldest messages
-- (src/agent/mod.rs). The estimate is unbounded where the source adds in `i64`.
use jeeves_core.Prelude.{
  ℕ, ◌+◌, ◌/◌, ◌≤◌, ◌≡◌, refl, ap, subst, ◌⊎◌, inl, inr, List, [], ◌∷◌, ◌++◌, length, arith,
  if◌then◌else◌, Bool-cases,
}
use jeeves_core.Prelude.Int.{
  ℤ, pos, ◌-ℤ◌, ltb_ℤ, ◌≤ℤ◌, ◌<ℤ◌, -ℤ_parts, eq_of_parts, pos_part, neg_part,
}
use jeeves_core.Agent.Messages.{ChatMessage, content_len}

abbrev pub tokens_of : ChatMessage → ℕ
tokens_of m = content_len m.content / 4

abbrev pub estimate : List ChatMessage → ℕ
estimate [] = 0
estimate (m ∷ ms) = tokens_of m + estimate ms

-- The loop on the messages after the first: the oldest goes while more than one is left and the
-- estimate is above the limit.
unfoldable pub drop_oldest : ℤ → ℤ → List ChatMessage → List ChatMessage
drop_oldest limit running [] = []
drop_oldest limit running (m ∷ []) = m ∷ []
drop_oldest limit running (m ∷ n ∷ ms) =
    let rest = drop_oldest limit (running -ℤ pos (tokens_of m)) (n ∷ ms) in
    if ltb_ℤ limit running then rest else m ∷ n ∷ ms

-- `ContextOverflow::TruncateOldest`.
unfoldable pub truncate_oldest : ℤ → List ChatMessage → List ChatMessage
unfolding drop_oldest
truncate_oldest limit [] = []
truncate_oldest limit (m ∷ ms) = m ∷ drop_oldest limit (pos (estimate (m ∷ ms))) ms

-- The last message that was dropped, if one was, did not fit before what is kept.
abbrev pub Needed : ℤ → ℕ → List ChatMessage → List ChatMessage → Type 0
Needed limit base [] kept = Unit
Needed limit base (m ∷ []) kept = limit <ℤ pos (base + estimate (m ∷ kept))
Needed limit base (m ∷ n ∷ ms) kept = Needed limit base (n ∷ ms) kept

-- `kept` ends the messages `ms`, it fits or has one message, no message more was dropped than had
-- to be, and the newest message stays.
abbrev pub Truncates : ℤ → ℕ → List ChatMessage → List ChatMessage → Type 0
Truncates limit base ms kept =
    (dropped : List ChatMessage) × (ms ≡ dropped ++ kept)
    × ((pos (base + estimate kept) ≤ℤ limit) ⊎ (length kept ≤ 1))
    × Needed limit base dropped kept
    × (1 ≤ length ms → 1 ≤ length kept)

Needed-cons :
    (limit : ℤ) (base : ℕ) (m : ChatMessage) (dropped kept : List ChatMessage)
    → limit <ℤ pos (base + estimate (m ∷ dropped ++ kept))
    → Needed limit base dropped kept
    → Needed limit base (m ∷ dropped) kept
Needed-cons limit base m [] kept over h = over
Needed-cons limit base m (n ∷ dropped) kept over h = h

drop_oldest-Truncates :
    (limit : ℤ) (base : ℕ) (ms : List ChatMessage) (running : ℤ)
    → running ≡ pos (base + estimate ms)
    → Truncates limit base ms (drop_oldest limit running ms)
unfolding drop_oldest
drop_oldest-Truncates limit base [] running e = ([], refl, inr (omega arith), tt, λ h. h)
drop_oldest-Truncates limit base (m ∷ []) running e = ([], refl, inr (omega arith), tt, λ h. h)
drop_oldest-Truncates limit base (m ∷ n ∷ ms) running e = elim (Bool-cases (ltb_ℤ limit running)) [
  | inr q ↦ rw q ([], refl, inl (ground (arith, q, e)), tt, λ h. h)
  | inl q ↦
      let shrunk : running -ℤ pos (tokens_of m) ≡ pos (base + estimate (n ∷ ms)) =
        eq_of_parts _ _
          (omega (arith, ap pos_part e, ap neg_part e, -ℤ_parts running (pos (tokens_of m)))) in
      let r = drop_oldest-Truncates limit base (n ∷ ms) (running -ℤ pos (tokens_of m)) shrunk in
      let over : limit <ℤ pos (base + estimate (m ∷ n ∷ ms)) = ground (arith, q, e) in
      let first = subst (λ xs. limit <ℤ pos (base + estimate (m ∷ xs))) r.1 over in
      rw q (
        m ∷ r.0,
        ap (λ xs. m ∷ xs) r.1,
        r.2,
        Needed-cons limit base m r.0 _ first r.3,
        λ h. r.4 (omega arith),
      )
]

-- The truncation keeps the first message and, of the others, the newest ones: they fit under the
-- limit with the first or only one of them is left, none was dropped that could have stayed in
-- front of them, and the newest is never dropped.
pub truncate_oldest_lem :
    (limit : ℤ) (m : ChatMessage) (ms : List ChatMessage)
    → (kept : List ChatMessage) × (truncate_oldest limit (m ∷ ms) ≡ m ∷ kept)
      × Truncates limit (tokens_of m) ms kept
unfolding truncate_oldest
truncate_oldest_lem limit m ms =
    (_, refl, drop_oldest-Truncates limit (tokens_of m) ms (pos (estimate (m ∷ ms))) refl)
