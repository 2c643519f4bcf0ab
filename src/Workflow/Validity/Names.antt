-- ===== src/Workflow/Validity/Names.antt =====
-- When the names, the output keys and the state keys pass (src/workflow/mod.rs).
use jeeves_core.Prelude.{
  String, ◌≡◌, refl, sym, subst, ◌≢◌, ◌↔◌, ◌⊎◌, inl, inr, Option, none, some, List, [], ◌∷◌, All,
  Bool-cases,
}
use jeeves_core.Types.{ok, >>=-eq-ok, >>-eq-ok, StageName}
use jeeves_core.Workflow.{
  Stage, StateField, contains, add_output_key, collect_names, validate_schema,
}
use jeeves_core.Workflow.Validity.{In, Distinct, OnSome, names, with_key, output_keys, state_keys}
use jeeves_core.Workflow.Validity.Checks.{
  iff_trans, check_iff, reject_if-ok, not-contains_iff, is_empty_iff,
}

-- No text of the first list stands in the second.
abbrev pub Apart : List String → List String → Type 0
Apart [] ys = Unit
Apart (x ∷ xs) ys = (¬ In x ys) × Apart xs ys

pub Apart-cons :
    (xs ys : List String) (y : String) → Apart xs (y ∷ ys) ↔ ((¬ In y xs) × Apart xs ys)
Apart-cons [] ys y = (λ h. (λ i. i, tt), λ h. tt)
Apart-cons (x ∷ xs) ys y = (
  λ h.
      let r = (Apart-cons xs ys y).0 h.1 in
      (λ i. elim i [ inl e ↦ h.0 (inl (sym e)) | inr j ↦ r.0 j ], (λ i. h.0 (inr i), r.1)),
  λ h. (
    λ i. elim i [ inl e ↦ h.0 (inl (sym e)) | inr j ↦ h.1.0 j ],
    (Apart-cons xs ys y).1 (λ i. h.0 (inr i), h.1.1),
  ),
)

-- Names that are fresh one after the other are distinct, and apart from those seen before.
pub Distinct-step :
    (xs seen : List String) (x : String)
    → ((¬ In x seen) × (Distinct xs × Apart xs (x ∷ seen)))
      ↔ (Distinct (x ∷ xs) × Apart (x ∷ xs) seen)
Distinct-step xs seen x = (
  λ h. let r = (Apart-cons xs seen x).0 h.1.1 in ((r.0, h.1.0), (h.0, r.1)),
  λ h. (h.1.0, (h.0.1, (Apart-cons xs seen x).1 (h.0.0, h.1.1))),
)

pub Apart-nil : (xs : List String) → Apart xs []
Apart-nil [] = tt
Apart-nil (x ∷ xs) = (λ i. i, Apart-nil xs)

pub validate_schema_iff :
    (fs : List StateField) (seen : List String)
    → (validate_schema fs seen ≡ ok tt) ↔ (Distinct (state_keys fs) × Apart (state_keys fs) seen)
unfolding validate_schema
validate_schema_iff [] seen = (λ h. (tt, tt), λ h. refl)
validate_schema_iff (f ∷ rest) seen =
    iff_trans
      (check_iff _ _ (iff_trans (reject_if-ok _ _) (not-contains_iff seen f.key))
        (validate_schema_iff rest (f.key ∷ seen)))
      (Distinct-step (state_keys rest) seen f.key)

pub Distinct-with_key :
    (o : Option String) (ks seen : List String)
    → (OnSome (λ k. ¬ In k seen) o × (Distinct ks × Apart ks (with_key o seen)))
      ↔ (Distinct (with_key o ks) × Apart (with_key o ks) seen)
Distinct-with_key none ks seen = (λ h. h.1, λ h. (tt, h))
Distinct-with_key (some k) ks seen = Distinct-step ks seen k

pub add_output_key-ok :
    (name : StageName) (o : Option String) (seen : List String)
    → OnSome (λ k. ¬ In k seen) o
    → add_output_key name o seen ≡ ok (with_key o seen)
unfolding add_output_key
add_output_key-ok name none seen h = refl
add_output_key-ok name (some k) seen h = rw ((not-contains_iff seen k).1 h)

pub add_output_key_sound :
    (name : StageName) (o : Option String) (seen : List String) {ks : List String}
    → add_output_key name o seen ≡ ok ks
    → OnSome (λ k. ¬ In k seen) o × (ks ≡ with_key o seen)
unfolding add_output_key
add_output_key_sound name none seen h = (tt, cc)
add_output_key_sound name (some k) seen h = elim (Bool-cases (contains seen k)) [
  | inl e ↦ absurd (let p = (rw e at h) in cc)
  | inr e ↦ ((not-contains_iff seen k).0 e, let p = (rw e at h) in cc)
]

-- What the first loop over the stages asks of them, given the names and keys seen before.
abbrev pub Collectable : List Stage → List String → List String → Type 0
Collectable ss seen keys =
    All (λ s. s.name ≢ "") ss
    × (Distinct (names ss) × Apart (names ss) seen)
    × (Distinct (output_keys ss) × Apart (output_keys ss) keys)

-- One turn of the loop, inverted.
pub collect_step :
    (s : Stage) (rest : List Stage) (seen keys : List String) {ns : List String}
    → collect_names (s ∷ rest) seen keys ≡ ok ns
    → (s.name ≢ "")
      × (¬ In s.name seen)
      × OnSome (λ k. ¬ In k keys) s.output_key
      × (collect_names rest (s.name ∷ seen) (with_key s.output_key keys) ≡ ok ns)
unfolding collect_names
collect_step s rest seen keys {ns} h =
    let p = >>-eq-ok _ _ h in
    let q = >>-eq-ok _ _ p.1 in
    let r = >>=-eq-ok (add_output_key s.name s.output_key keys) _ q.1 in
    let k = add_output_key_sound s.name s.output_key keys r.1 in
    (
      (is_empty_iff s.name).0 ((reject_if-ok _ _).0 p.0),
      (not-contains_iff seen s.name).0 ((reject_if-ok _ _).0 q.0),
      k.0,
      subst (λ ks. collect_names rest (s.name ∷ seen) ks ≡ ok ns) k.1 r.2,
    )

pub collect_names_sound :
    (ss : List Stage) (seen keys : List String) {ns : List String}
    → collect_names ss seen keys ≡ ok ns
    → Collectable ss seen keys
collect_names_sound [] seen keys h = (tt, (tt, tt), (tt, tt))
collect_names_sound (s ∷ rest) seen keys h =
    let t = collect_step s rest seen keys h in
    let r = collect_names_sound rest (s.name ∷ seen) (with_key s.output_key keys) t.3 in
    (
      (t.0, r.0),
      (Distinct-step (names rest) seen s.name).0 (t.1, r.1),
      (Distinct-with_key s.output_key (output_keys rest) keys).0 (t.2, r.2),
    )

-- The set that the loop yields holds the names of the stages.
pub collect_names-In :
    (ss : List Stage) (seen keys : List String) {ns : List String}
    → collect_names ss seen keys ≡ ok ns
    → (a : String) → In a ns ↔ (In a (names ss) ⊎ In a seen)
unfolding collect_names
collect_names-In [] seen keys {ns} h a =
    let e : seen ≡ ns = cc in rw (← e) (λ i. inr i, λ i. elim i [ inl b ↦ absurd b | inr j ↦ j ])
collect_names-In (s ∷ rest) seen keys {ns} h a =
    let t = collect_step s rest seen keys h in
    let r = collect_names-In rest (s.name ∷ seen) (with_key s.output_key keys) t.3 a in
    (λ i. shift (r.0 i), λ i. r.1 (unshift i))
  where
    shift : In a (names rest) ⊎ In a (s.name ∷ seen) → In a (names (s ∷ rest)) ⊎ In a seen
    shift (inl i) = inl (inr i)
    shift (inr (inl e)) = inl (inl e)
    shift (inr (inr i)) = inr i

    unshift : In a (names (s ∷ rest)) ⊎ In a seen → In a (names rest) ⊎ In a (s.name ∷ seen)
    unshift (inl (inl e)) = inr (inl e)
    unshift (inl (inr i)) = inl i
    unshift (inr i) = inr (inr i)

pub collect_names_complete :
    (ss : List Stage) (seen keys : List String)
    → Collectable ss seen keys
    → (ns : List String) × (collect_names ss seen keys ≡ ok ns)
unfolding collect_names
collect_names_complete [] seen keys h = (seen, refl)
collect_names_complete (s ∷ rest) seen keys h =
    let n = (Distinct-step (names rest) seen s.name).1 h.1 in
    let k = (Distinct-with_key s.output_key (output_keys rest) keys).1 h.2 in
    let r =
      collect_names_complete rest (s.name ∷ seen) (with_key s.output_key keys) (h.0.1, n.1, k.1) in
    (
      r.0,
      rw ((is_empty_iff s.name).1 h.0.0) (
          rw ((not-contains_iff seen s.name).1 n.0)
            (rw (add_output_key-ok s.name s.output_key keys k.0) r.1)),
    )
