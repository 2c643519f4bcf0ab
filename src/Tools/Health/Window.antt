-- ===== src/Tools/Health/Window.antt =====
-- The sliding window holds the latest executions (src/tools/health.rs).
use jeeves_core.Prelude.{
  ℕ, zero, suc, ◌+◌, ◌-◌, ◌≤◌, ◌≡◌, refl, sym, ap, ◌∙◌, true, List, [], ◌∷◌, ◌++◌, length,
  length-append, arith, leb, Bool-cases, inl, inr, if◌then◌else◌,
}
use mathlib.Core.List.{append-nil, append_assoc}
use jeeves_core.Tools.Health.{ExecutionRecord, ToolMetrics, new_metrics, pop_front, record_in}

-- All but the first n elements.
unfoldable pub drop {ℓ} : {A : Type ℓ} → ℕ → List A → List A
drop zero xs = xs
drop (suc n) [] = []
drop (suc n) (x ∷ xs) = drop n xs

-- The last n elements.
abbrev pub last {ℓ} : {A : Type ℓ} → ℕ → List A → List A
last n xs = drop (length xs - n) xs

-- A window of size 0 still holds one record.
abbrev pub capacity : ℕ → ℕ
capacity zero = 1
capacity (suc n) = suc n

pub drop-append {ℓ} :
    {A : Type ℓ} (n : ℕ) (xs ys : List A) → n ≤ length xs → drop n (xs ++ ys) ≡ drop n xs ++ ys
unfolding drop
drop-append zero xs ys h = refl
drop-append (suc n) [] ys h = absurd (omega arith)
drop-append (suc n) (x ∷ xs) ys h = drop-append n xs ys (omega arith)

pop_front-drop : (n : ℕ) (xs : List ExecutionRecord) → pop_front (drop n xs) ≡ drop (suc n) xs
unfolding drop
pop_front-drop zero [] = refl
pop_front-drop zero (x ∷ xs) = refl
pop_front-drop (suc n) [] = refl
pop_front-drop (suc n) (x ∷ xs) = pop_front-drop n xs

length-drop {ℓ} : {A : Type ℓ} (n : ℕ) (xs : List A) → length (drop n xs) ≡ length xs - n
unfolding drop
length-drop zero xs = omega arith
length-drop (suc n) [] = omega arith
length-drop (suc n) (x ∷ xs) = omega (arith, length-drop n xs)

abbrev kept : ℕ → List ExecutionRecord → List ExecutionRecord
kept w rs = if leb w (length rs) then pop_front rs else rs

drop-nil {ℓ} : {A : Type ℓ} (n : ℕ) → drop {A = A} n [] ≡ []
unfolding drop
drop-nil zero = refl
drop-nil (suc n) = refl

-- Room is made for one record in the last records of a history.
kept-last :
    (w : ℕ) (h : List ExecutionRecord)
    → kept w (last (capacity w) h) ≡ drop (length h + 1 - capacity w) h
kept-last zero h =
    let always : leb 0 (length (last 1 h)) ≡ true = ground arith in
    rw always (pop_front-drop (length h - 1) h ∙ shorter h)
  where
    shorter : (h : List ExecutionRecord) → drop (suc (length h - 1)) h ≡ drop (length h + 1 - 1) h
    shorter [] = drop-nil _ ∙ sym (drop-nil _)
    shorter (x ∷ h) =
        let whole : suc (length (x ∷ h) - 1) ≡ length (x ∷ h) + 1 - 1 = omega arith in
        ap (λ n. drop n (x ∷ h)) whole
kept-last (suc n) h = elim (Bool-cases (leb (suc n) (length (last (suc n) h)))) [
  | inl q ↦
      let full : suc (length h - suc n) ≡ length h + 1 - suc n =
        ground (arith, q, length-drop (length h - suc n) h) in
      rw q (pop_front-drop (length h - suc n) h ∙ ap (λ k. drop k h) full)
  | inr q ↦
      let room : length h - suc n ≡ length h + 1 - suc n =
        ground (arith, q, length-drop (length h - suc n) h) in
      rw q (ap (λ k. drop k h) room)
]

-- The executions of a tool, recorded one after the other.
unfoldable pub record_all : List ExecutionRecord → ToolMetrics → ToolMetrics
record_all [] m = m
record_all (e ∷ es) m = record_all es (record_in e.timestamp e.success e.latency_ms e.error_type m)

-- What a tool of window size w keeps after the history h.
abbrev window : ℕ → List ExecutionRecord → ToolMetrics
window w h = record { records = last (capacity w) h; window_size = w }

capacity-positive : (w : ℕ) → 1 ≤ capacity w
capacity-positive zero = omega arith
capacity-positive (suc n) = omega arith

record_in-window :
    (w : ℕ) (h : List ExecutionRecord) (e : ExecutionRecord)
    → record_in e.timestamp e.success e.latency_ms e.error_type (window w h)
      ≡ window w (h ++ e ∷ [])
unfolding record_in
record_in-window w h e =
    let room : length h + 1 - capacity w ≤ length h = omega (arith, capacity-positive w) in
    let n : length (h ++ e ∷ []) ≡ length h + 1 = length-append h (e ∷ []) in
    let records : kept w (last (capacity w) h) ++ e ∷ [] ≡ last (capacity w) (h ++ e ∷ []) =
      ap (λ rs. rs ++ e ∷ []) (kept-last w h)
      ∙ sym (drop-append (length h + 1 - capacity w) h (e ∷ []) room)
      ∙ ap (λ k. drop (k - capacity w) (h ++ e ∷ [])) (sym n) in
    ap (λ rs. record { records = rs; window_size = w }) records

record_all-window :
    (w : ℕ) (h es : List ExecutionRecord) → record_all es (window w h) ≡ window w (h ++ es)
unfolding record_all
record_all-window w h [] = ap (window w) (sym (append-nil h))
record_all-window w h (e ∷ es) =
    ap (record_all es) (record_in-window w h e)
    ∙ record_all-window w (h ++ e ∷ []) es
    ∙ ap (window w) (append_assoc h (e ∷ []) es)

-- After any executions, a tool that was new keeps exactly the latest of them, as many as its
-- window size, and one if that is 0.
pub window_exact :
    (w : ℕ) (es : List ExecutionRecord)
    → (record_all es (new_metrics w)).records ≡ last (capacity w) es
window_exact w es = ap (λ m. m.records) (ap (record_all es) (start w) ∙ record_all-window w [] es)
  where
    start : (w : ℕ) → new_metrics w ≡ window w []
    start w = ap (λ rs. record { records = rs; window_size = w }) (sym (drop-nil _))
