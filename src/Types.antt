-- ===== src/Types.antt =====
-- Identifiers, error values and results of src/types (ids.rs, errors.rs).
-- A message is kept as the pieces of its format string, so the rendering of numbers and of
-- `{:?}` is not modelled. The sources attached to an error (`#[source]`) are left out.
pub mod Config
use jeeves_core.Prelude.{
  String, Bool, List, [], ◌∷◌, Option, none, some, ◌≡◌, refl, ◌⊎◌, inl, inr, ◌==◌, if◌then◌else◌,
}
use jeeves_core.Prelude.Int.{ℤ}

-- The newtypes over `String` that `define_id!` declares. They differ only for the compiler.
abbrev pub RunId : Type 0
RunId = String

abbrev pub RequestId : Type 0
RequestId = String

abbrev pub UserId : Type 0
UserId = String

abbrev pub SessionId : Type 0
SessionId = String

abbrev pub EnvelopeId : Type 0
EnvelopeId = String

abbrev pub InterruptId : Type 0
InterruptId = String

abbrev pub AgentName : Type 0
AgentName = String

abbrev pub StageName : Type 0
StageName = String

abbrev pub OutputKey : Type 0
OutputKey = String

abbrev pub PromptKey : Type 0
PromptKey = String

abbrev pub RoutingFnName : Type 0
RoutingFnName = String

abbrev pub ToolName : Type 0
ToolName = String

-- `is_empty` of an identifier and of a `String`.
abbrev pub is_empty : String → Bool
is_empty s = s == ""

-- `from_string`; `none` is the error on an empty text, on which `must` panics.
unfoldable pub from_string : String → Option String
from_string s = if is_empty s then none else some s

-- An instant of the clock (`DateTime<Utc>`, `Instant`) in nanoseconds.
abbrev pub Timestamp : Type 0
Timestamp = ℤ

-- The bits of an `f64` that the modelled code carries and does not compute with.
pub record F64 : Type 0 where
  pub bits : ℤ

-- A formatted message, piece by piece.
pub data Piece : Type 0 where
  text : String → Piece
  int : ℤ → Piece

abbrev pub Message : Type 0
Message = List Piece

abbrev pub plain : String → Message
plain s = text s ∷ []

pub data Error : Type 0 where
  validation not_found quota_exceeded state_transition : Message → Error
  internal cancelled timeout policy_violation : Message → Error
  serialization io : Error

unfoldable pub to_error_code : Error → String
to_error_code (validation m) = "INVALID_ARGUMENT"
to_error_code (not_found m) = "NOT_FOUND"
to_error_code (quota_exceeded m) = "RESOURCE_EXHAUSTED"
to_error_code (state_transition m) = "FAILED_PRECONDITION"
to_error_code (cancelled m) = "CANCELLED"
to_error_code (timeout m) = "TIMEOUT"
to_error_code (policy_violation m) = "PERMISSION_DENIED"
to_error_code (internal m) = "INTERNAL"
to_error_code serialization = "INTERNAL"
to_error_code io = "INTERNAL"

pub data Result {ℓ} (T : Type ℓ) : Type ℓ where
  ok : T → Result T
  err : Error → Result T

-- `if test { return Err(e) }`.
abbrev pub reject_if : Bool → Error → Result (Unit {0})
reject_if test e = if test then err e else ok tt

-- `ok_or_else`.
abbrev pub ok_or {ℓ} : {T : Type ℓ} → Option T → Error → Result T
ok_or none e = err e
ok_or (some value) e = ok value

-- The `?` operator, on a value and on the unit.
module _ {ℓ κ} {S : Type ℓ} {T : Type κ} where
  infixl 5 ◌>>=◌
  abbrev pub ◌>>=◌ : Result S → (S → Result T) → Result T
  (err e) >>= next = err e
  (ok value) >>= next = next value

  -- Inversion of a chain that succeeds.
  pub >>=-eq-ok :
      (first : Result S) (next : S → Result T) {t : T}
      → first >>= next ≡ ok t
      → (s : S) × (first ≡ ok s) × (next s ≡ ok t)
  >>=-eq-ok (err e) next h = cc
  >>=-eq-ok (ok s) next h = (s, refl, h)

module _ {κ} {T : Type κ} where
  infixl 5 ◌>>◌
  abbrev pub ◌>>◌ : Result (Unit {0}) → Result T → Result T
  check >> rest = check >>= (λ _. rest)

  pub >>-eq-ok :
      (check : Result (Unit {0})) (rest : Result T) {t : T}
      → check >> rest ≡ ok t
      → (check ≡ ok tt) × (rest ≡ ok t)
  >>-eq-ok check rest h = let p = >>=-eq-ok check (λ _. rest) h in (p.1, p.2)

pub Result-cases {ℓ} :
    {A : Type ℓ} (r : Result A) → ((a : A) × (r ≡ ok a)) ⊎ ((e : Error) × (r ≡ err e))
Result-cases (ok a) = inl (a, refl)
Result-cases (err e) = inr (e, refl)

pub ok_or-ok {ℓ} : {A : Type ℓ} (o : Option A) (e : Error) {a : A} → ok_or o e ≡ ok a → o ≡ some a
ok_or-ok none e h = cc
ok_or-ok (some b) e h = cc
