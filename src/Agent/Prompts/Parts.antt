-- ===== src/Agent/Prompts/Parts.antt =====
-- What rendering makes of a template that is plain text with placeholders (src/agent/prompts.rs).
use Prim.Native.Char.{Char, code}
use Prim.Native.String.{◌++◌, count}
use text.Mathlib.TextEquality.{Char-path}
use text.Mathlib.TextLemmas.{append_assoc, append-nil, nil-append, cons-append, length-cons}
use jeeves_core.Prelude.{
  ℕ, ◌-◌, String, ◌≡◌, refl, sym, ap, ◌∙◌, Bool, true, false, not, ◌&&◌, none, some, unwrap_or,
  List, [], ◌∷◌, inl, inr, All, arith, is_eq, ◌==◌, eq_iff, Bool-cases, if◌then◌else◌,
}
use jeeves_core.Prelude.Dict
use jeeves_core.Prelude.Dict.{Dict, keys, values}
use jeeves_core.Agent.Prompts.{
  CharTests, is_char, is_prefix, replace_from, placeholder, substitute, is_identifier, closed,
  strip, render_template,
}

-- A piece of a template: text, or the placeholder of a variable.
pub data Part : Type 0 where
  words : String → Part
  var : String → Part

abbrev pub print : List Part → String
print [] = ""
print (words s ∷ ps) = s ++ print ps
print (var key ∷ ps) = "{" ++ (key ++ ("}" ++ print ps))

-- No brace of either kind.
unfoldable pub is_plain : String → Bool
is_plain String.[] = true
is_plain (String.◌∷◌ c s) = not (is_char b'{' c) && (not (is_char b'}' c) && is_plain s)

-- Text has no braces, and a variable's name is an identifier without braces.
abbrev pub IsPart : CharTests → Part → Type 0
IsPart t (words s) = is_plain s ≡ true
IsPart t (var key) = (is_identifier t key ≡ true) × (is_plain key ≡ true)

-- Each placeholder is replaced by the value of its variable, or by nothing.
abbrev pub fill : Dict String → List Part → String
fill vars [] = ""
fill vars (words s ∷ ps) = s ++ fill vars ps
fill vars (var key ∷ ps) = unwrap_or "" (Dict.get vars key) ++ fill vars ps

-- One variable in the place of its placeholders.
abbrev put : String → String → List Part → List Part
put key value [] = []
put key value (words s ∷ ps) = words s ∷ put key value ps
put key value (var j ∷ ps) = (if key == j then words value else var j) ∷ put key value ps

abbrev cons : Char → String → String
cons c s = String.◌∷◌ c s

is_eq→eq : (a b : ℕ) → is_eq a b ≡ true → a ≡ b
is_eq→eq a b h = ground (arith, h)

both : (a b : Bool) → (a && b) ≡ true → (a ≡ true) × (b ≡ true)
both a b h = ground (arith, h)

plain_head :
    (c : Char) (s : String)
    → is_plain (cons c s) ≡ true
    → (is_char b'{' c ≡ false) × (is_char b'}' c ≡ false) × (is_plain s ≡ true)
unfolding is_plain
plain_head c s h = ground (arith, h)

-- Nothing is found in plain text by a pattern that begins with a brace.
replace-plain :
    (p v s rest : String)
    → is_plain s ≡ true
    → replace_from (cons "{" p) v 0 (s ++ rest) ≡ s ++ replace_from (cons "{" p) v 0 rest
unfolding replace_from is_prefix
replace-plain p v String.[] rest h =
    rw (nil-append rest, nil-append (replace_from (cons "{" p) v 0 rest)) refl
replace-plain p v (String.◌∷◌ c s) rest h =
    let (o, q, r) = plain_head c s h in
    rw (cons-append c s rest, cons-append c s (replace_from (cons "{" p) v 0 rest))
      (rw (o, replace_from, is_prefix) (ap (cons c) (replace-plain p v s rest r)))

replace-skip :
    (q v s rest : String) → replace_from q v (count s) (s ++ rest) ≡ replace_from q v 0 rest
unfolding replace_from
replace-skip q v String.[] rest = rw (nil-append rest) refl
replace-skip q v (String.◌∷◌ c s) rest =
    rw (length-cons c s, cons-append c s rest) (replace-skip q v s rest)

prefix-append : (p rest : String) → is_prefix p (p ++ rest) ≡ true
unfolding is_prefix
prefix-append String.[] rest = refl
prefix-append (String.◌∷◌ c p) rest =
    rw (cons-append c p rest) (ground (arith, prefix-append p rest))

-- A plain name followed by a closing brace is found only where the same name stands.
prefix-same :
    (k j rest : String)
    → is_plain k ≡ true
    → is_plain j ≡ true
    → is_prefix (k ++ "}") (j ++ ("}" ++ rest)) ≡ true
    → k ≡ j
unfolding is_prefix
prefix-same String.[] String.[] rest a b h = refl
prefix-same String.[] (String.◌∷◌ d j) rest a b h =
    let q : (is_char b'}' d && true) ≡ true =
      rw (nil-append "}", cons-append d j ("}" ++ rest), is_prefix) at h in
    absurd (ground (arith, q, (plain_head d j b).1))
prefix-same (String.◌∷◌ c k) String.[] rest a b h =
    let q : (is_char (code c) "}" && is_prefix (k ++ "}") ("" ++ rest)) ≡ true =
      rw (cons-append c k "}", nil-append ("}" ++ rest), cons-append "}" "" rest) at h in
    absurd (ground (arith, q, (plain_head c k a).1))
prefix-same (String.◌∷◌ c k) (String.◌∷◌ d j) rest a b h =
    let q : (is_char (code c) d && is_prefix (k ++ "}") (j ++ ("}" ++ rest))) ≡ true =
      rw (cons-append c k "}", cons-append d j ("}" ++ rest)) at h in
    let (first, others) = both _ _ q in
    let e = Char-path c d (is_eq→eq (code c) (code d) first) in
    let f = prefix-same k j rest (plain_head c k a).2 (plain_head d j b).2 others in
    ap (λ x. cons x k) e ∙ ap (cons d) f

-- The pattern of a variable, as a brace and the rest.
abbrev pattern_of : String → String
pattern_of key = cons "{" (key ++ "}")

placeholder-cons : (key : String) → placeholder key ≡ pattern_of key
placeholder-cons key = cons-append "{" "" (key ++ "}") ∙ ap (cons "{") (nil-append (key ++ "}"))

-- A placeholder and what follows it, regrouped.
print-var : (j rest : String) → "{" ++ (j ++ ("}" ++ rest)) ≡ cons "{" (j ++ ("}" ++ rest))
print-var j rest = cons-append "{" "" _ ∙ ap (cons "{") (nil-append _)

count_tail : (q : String) → count (cons "{" q) - 1 ≡ count q
count_tail q = rw (length-cons "{" q) (omega arith)

close-cons : (rest : String) → "}" ++ rest ≡ cons "}" rest
close-cons rest = cons-append "}" "" rest ∙ ap (cons "}") (nil-append rest)

replace-close :
    (p v rest : String)
    → replace_from (cons "{" p) v 0 ("}" ++ rest) ≡ "}" ++ replace_from (cons "{" p) v 0 rest
unfolding replace_from is_prefix
replace-close p v rest = ap (replace_from (cons "{" p) v 0) (close-cons rest) ∙ sym (close-cons _)

replace-hit :
    (key value rest : String)
    → replace_from (pattern_of key) value 0 (cons "{" (key ++ ("}" ++ rest)))
      ≡ value ++ replace_from (pattern_of key) value 0 rest
unfolding replace_from is_prefix
replace-hit key value rest =
    let found : is_prefix (key ++ "}") (key ++ ("}" ++ rest)) ≡ true =
      ap (is_prefix (key ++ "}")) (sym (append_assoc key "}" rest))
      ∙ prefix-append (key ++ "}") rest in
    let q = key ++ "}" in
    rw found (
      ap (λ x. value ++ x)
        (ap (λ n. replace_from (pattern_of key) value n (key ++ ("}" ++ rest))) (count_tail q)
          ∙ ap (replace_from (pattern_of key) value (count q)) (sym (append_assoc key "}" rest))
          ∙ replace-skip (pattern_of key) value q rest))

replace-miss :
    (key value j rest : String)
    → is_plain key ≡ true
    → is_plain j ≡ true
    → (key == j) ≡ false
    → replace_from (pattern_of key) value 0 (cons "{" (j ++ ("}" ++ rest)))
      ≡ cons "{" (j ++ ("}" ++ replace_from (pattern_of key) value 0 rest))
unfolding replace_from is_prefix
replace-miss key value j rest a b e =
    elim (Bool-cases (is_prefix (key ++ "}") (j ++ ("}" ++ rest)))) [
      | inl h ↦
          absurd (let same = prefix-same key j rest a b h in let q = (eq_iff key j).1 same in cc)
      | inr h ↦
          rw (h, replace_from, is_prefix)
            (ap (cons "{") (
              replace-plain (key ++ "}") value j ("}" ++ rest) b
              ∙ ap (λ x. j ++ x) (replace-close (key ++ "}") value rest)))
    ]

-- Substituting one variable in what is printed.
replace-print :
    (t : CharTests) (key value : String) (ps : List Part)
    → is_plain key ≡ true
    → All (IsPart t) ps
    → replace_from (pattern_of key) value 0 (print ps) ≡ print (put key value ps)
unfolding replace_from
replace-print t key value [] k h = refl
replace-print t key value (words s ∷ ps) k h =
    replace-plain (key ++ "}") value s (print ps) h.0
    ∙ ap (λ x. s ++ x) (replace-print t key value ps k h.1)
replace-print t key value (var j ∷ ps) k h = elim (Bool-cases (key == j)) [
  | inl e ↦
      let same = (eq_iff key j).0 e in
      rw e (
        ap (replace_from (pattern_of key) value 0) (print-var j (print ps))
        ∙ ap (λ x. replace_from (pattern_of key) value 0 (cons "{" (x ++ ("}" ++ print ps))))
            (sym same)
        ∙ replace-hit key value (print ps)
        ∙ ap (λ x. value ++ x) (replace-print t key value ps k h.1))
  | inr e ↦ rw e (
      ap (replace_from (pattern_of key) value 0) (print-var j (print ps))
      ∙ replace-miss key value j (print ps) k h.0.1 e
      ∙ ap (λ x. cons "{" (j ++ ("}" ++ x))) (replace-print t key value ps k h.1)
      ∙ sym (print-var j (print (put key value ps))))
]

put-IsPart :
    (t : CharTests) (key value : String) (ps : List Part)
    → is_plain value ≡ true
    → All (IsPart t) ps
    → All (IsPart t) (put key value ps)
put-IsPart t key value [] v h = tt
put-IsPart t key value (words s ∷ ps) v h = (h.0, put-IsPart t key value ps v h.1)
put-IsPart t key value (var j ∷ ps) v h = elim (Bool-cases (key == j)) [
  | inl e ↦ rw e (v, put-IsPart t key value ps v h.1)
  | inr e ↦ rw e (h.0, put-IsPart t key value ps v h.1)
]

fill-put :
    (key value : String) (vars : Dict String) (ps : List Part)
    → fill vars (put key value ps) ≡ fill ((key, value) ∷ vars) ps
unfolding Dict.get
fill-put key value vars [] = refl
fill-put key value vars (words s ∷ ps) = ap (λ x. s ++ x) (fill-put key value vars ps)
fill-put key value vars (var j ∷ ps) = elim (Bool-cases (key == j)) [
  | inl e ↦ rw e (ap (λ x. value ++ x) (fill-put key value vars ps))
  | inr e ↦ rw e (ap (λ x. unwrap_or "" (Dict.get vars j) ++ x) (fill-put key value vars ps))
]

module _ (t : CharTests) where
  strip-plain :
      (s rest : String) → is_plain s ≡ true → strip t none (s ++ rest) ≡ s ++ strip t none rest
  unfolding strip
  strip-plain String.[] rest h = ap (strip t none) (nil-append rest) ∙ sym (nil-append _)
  strip-plain (String.◌∷◌ c s) rest h =
      let (o, q, r) = plain_head c s h in
      rw (cons-append c s rest, cons-append c s (strip t none rest))
        (rw (o, strip) (ap (cons c) (strip-plain s rest r)))

  strip-inside :
      (seen s rest : String)
      → is_plain s ≡ true
      → strip t (some seen) (s ++ ("}" ++ rest)) ≡ closed t (seen ++ s) ++ strip t none rest
  unfolding strip
  strip-inside seen String.[] rest h =
      ap (strip t (some seen)) (nil-append ("}" ++ rest) ∙ close-cons rest)
      ∙ ap (λ x. closed t x ++ strip t none rest) (sym (append-nil seen))
  strip-inside seen (String.◌∷◌ c s) rest h =
      let (o, q, r) = plain_head c s h in
      let one = cons c "" in
      let grown : (seen ++ one) ++ s ≡ seen ++ cons c s =
        append_assoc seen one s
        ∙ ap (λ x. seen ++ x) (cons-append c "" s ∙ ap (cons c) (nil-append s)) in
      rw (cons-append c s ("}" ++ rest)) (
        rw (q, strip)
          (strip-inside (seen ++ one) s rest r ∙ ap (λ x. closed t x ++ strip t none rest) grown))

  strip-var :
      (j rest : String)
      → is_identifier t j ≡ true
      → is_plain j ≡ true
      → strip t none (cons "{" (j ++ ("}" ++ rest))) ≡ strip t none rest
  unfolding strip closed
  strip-var j rest i p =
      strip-inside "" j rest p
      ∙ ap (λ x. closed t x ++ strip t none rest) (nil-append j)
      ∙ ap (λ b. (if b then "" else placeholder j) ++ strip t none rest) i
      ∙ nil-append _

  strip-print : (ps : List Part) → All (IsPart t) ps → strip t none (print ps) ≡ fill [] ps
  unfolding strip Dict.get
  strip-print [] h = refl
  strip-print (words s ∷ ps) h =
      strip-plain s (print ps) h.0 ∙ ap (λ x. s ++ x) (strip-print ps h.1)
  strip-print (var j ∷ ps) h =
      ap (strip t none) (print-var j (print ps))
      ∙ strip-var j (print ps) h.0.0 h.0.1
      ∙ strip-print ps h.1
      ∙ sym (nil-append _)

  -- A template of plain text and placeholders is rendered with the value of its variable in the place
  -- of each placeholder and nothing where there is no such variable, in whatever order the variables
  -- are substituted, when the names and the values of the variables have no braces.
  pub render_template-fill :
      (vars : Dict String) (ps : List Part)
      → All (λ key. is_plain key ≡ true) (keys vars)
      → All (λ value. is_plain value ≡ true) (values vars)
      → All (IsPart t) ps
      → render_template t (print ps) vars ≡ fill vars ps
  unfolding render_template substitute Dict.get
  render_template-fill [] ps k v h = strip-print ps h
  render_template-fill ((key, value) ∷ vars) ps k v h =
      ap (λ s. strip t none (substitute vars s))
        (ap (λ p. replace_from p value 0 (print ps)) (placeholder-cons key)
          ∙ replace-print t key value ps k.0 h)
      ∙ render_template-fill vars (put key value ps) k.1 v.1 (put-IsPart t key value ps v.0 h)
      ∙ fill-put key value vars ps
