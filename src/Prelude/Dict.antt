-- ===== src/Prelude/Dict.antt =====
-- `std::collections::HashMap` with text keys, as an association list. The order in which a
-- `HashMap` is iterated is unspecified: here it is the order of insertion.
use Prim.Native.Nat.{suc, ◌+◌, ◌≤◌}
use Prim.Native.String.{String}
use mathlib.Core.Path.{◌≡◌, refl, ap, subst}
use mathlib.Core.Logic.{inl, inr}
use mathlib.Core.Bool.{Bool}
use mathlib.Core.List.{List, [], ◌∷◌}
use mathlib.Core.Option.{Option, none, some}
use native.Mathlib.Omega.{arith}
use text.Mathlib.Text.{◌==◌}
use text.Mathlib.TextEquality.{eq_iff}
use text.Mathlib.TextPositions.{eq_refl}
use jeeves_core.Prelude.Tests.{if◌then◌else◌, is_some, Bool-cases}
use jeeves_core.Prelude.Lists.{length, All}

abbrev pub Dict {ℓ} : Type ℓ → Type ℓ
Dict V = List (String × V)

module _ {ℓ} {V : Type ℓ} where
  unfoldable pub get : Dict V → String → Option V
  get [] k = none
  get ((j, v) ∷ d) k = if j == k then some v else get d k

  unfoldable pub insert : Dict V → String → V → Dict V
  insert [] k v = (k, v) ∷ []
  insert ((j, w) ∷ d) k v = let rest = insert d k v in if j == k then (k, v) ∷ d else (j, w) ∷ rest

  unfoldable pub remove : Dict V → String → Dict V
  remove [] k = []
  remove ((j, v) ∷ d) k = let rest = remove d k in if j == k then rest else (j, v) ∷ rest

  abbrev pub contains_key : Dict V → String → Bool
  contains_key d k = is_some (get d k)

  abbrev pub keys : Dict V → List String
  keys [] = []
  keys ((k, v) ∷ d) = k ∷ keys d

  abbrev pub values : Dict V → List V
  values [] = []
  values ((k, v) ∷ d) = v ∷ values d

  -- `extend`: the entries of the second map win.
  unfoldable pub extend : Dict V → Dict V → Dict V
  extend d [] = d
  extend d ((k, v) ∷ e) = extend (insert d k v) e

  pub get-insert :
      (d : Dict V) (k j : String) (v : V)
      → get (insert d k v) j ≡ (if k == j then some v else get d j)
  unfolding get insert
  get-insert [] k j v = refl
  get-insert ((i, w) ∷ d) k j v =
      ground (arith, eq_iff k j, eq_iff i k, eq_iff i j, get-insert d k j v)

  pub get-remove :
      (d : Dict V) (k j : String) → get (remove d k) j ≡ (if k == j then none else get d j)
  unfolding get remove
  get-remove [] k j = ground arith
  get-remove ((i, v) ∷ d) k j = ground (arith, get-remove d k j, eq_iff i k, eq_iff i j, eq_iff k j)

  pub length-remove : (d : Dict V) (k : String) → length (remove d k) ≤ length d
  unfolding remove
  length-remove [] k = omega arith
  length-remove ((i, v) ∷ d) k = ground (arith, length-remove d k)

  pub length-insert : (d : Dict V) (k : String) (v : V) → length (insert d k v) ≤ length d + 1
  unfolding insert
  length-insert [] k v = omega arith
  length-insert ((i, w) ∷ d) k v = ground (arith, length-insert d k v)

pub ruleset dict_laws = (get-insert, get-remove)

pub get-insert_self {ℓ} :
    {V : Type ℓ} (d : Dict V) (k : String) (v : V) → get (insert d k v) k ≡ some v
get-insert_self d k v = simp (get-insert, eq_refl)

-- A property of all values survives an insertion that has it, and every removal.
module _ {ℓ κ} {V : Type ℓ} (P : V → Type κ) where
  pub All-insert :
      (d : Dict V) (k : String) (v : V) → All P (values d) → P v → All P (values (insert d k v))
  unfolding insert
  All-insert [] k v h p = (p, tt)
  All-insert ((j, w) ∷ d) k v h p = elim (Bool-cases (j == k)) [
    | inl e ↦ rw e (p, h.1)
    | inr e ↦ rw e (h.0, All-insert d k v h.1 p)
  ]

  pub All-remove : (d : Dict V) (k : String) → All P (values d) → All P (values (remove d k))
  unfolding remove
  All-remove [] k h = tt
  All-remove ((j, w) ∷ d) k h = elim (Bool-cases (j == k)) [
    | inl e ↦ rw e (All-remove d k h.1)
    | inr e ↦ rw e (h.0, All-remove d k h.1)
  ]

  pub All-get : (d : Dict V) (k : String) {v : V} → All P (values d) → get d k ≡ some v → P v
  unfolding get
  All-get [] k h e = cc
  All-get ((j, w) ∷ d) k {v} h e = elim (Bool-cases (j == k)) [
    | inl q ↦ let s : some w ≡ some v = rw (q, get) at e in subst P (cc) h.0
    | inr q ↦ All-get d k h.1 (rw (q, get) at e)
  ]

pub remove-insert_self {ℓ} :
    {V : Type ℓ} (d : Dict V) (k : String) (v : V) → remove (insert d k v) k ≡ remove d k
unfolding insert remove
remove-insert_self [] k v = rw (eq_refl k) refl
remove-insert_self ((j, w) ∷ d) k v = elim (Bool-cases (j == k)) [
  | inl e ↦ rw e (rw (eq_refl k) refl)
  | inr e ↦ rw e (rw e (ap (λ r. (j, w) ∷ r) (remove-insert_self d k v)))
]

pub length-values {ℓ} : {V : Type ℓ} (d : Dict V) → length (values d) ≡ length d
length-values [] = refl
length-values ((k, v) ∷ d) = ap suc (length-values d)

pub get-remove_self {ℓ} : {V : Type ℓ} (d : Dict V) (k : String) → get (remove d k) k ≡ none
get-remove_self d k = simp (get-remove, eq_refl)
