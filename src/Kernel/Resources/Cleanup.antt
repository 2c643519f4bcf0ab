-- ===== src/Kernel/Resources/Cleanup.antt =====
-- What a cleanup of the users' usage leaves (src/kernel/resources.rs).
use jeeves_core.Prelude.{
  ℕ, zero, suc, ◌+◌, ◌-◌, ◌≤◌, ◌≡◌, refl, ap, ◌∙◌, none, some, List, [], ◌∷◌, length, arith, ltb,
  eq_iff, eq_refl, Bool-cases, inl, inr, if◌then◌else◌,
}
use jeeves_core.Prelude.Dict
use jeeves_core.Prelude.Dict.{Dict}
use jeeves_core.Types.{UserId}
use jeeves_core.Workflow.{contains}
use jeeves_core.Workflow.Validity.{In, contains→In}
use jeeves_core.Kernel.Quota.{ResourceUsage}
use jeeves_core.Kernel.Resources.{
  ResourceTracker, get_user_usage, retain, first_keys, remove_users, cap_entries,
  cleanup_stale_users,
}

module _ {ℓ} {V : Type ℓ} where
  length-retain : (active : List UserId) (d : Dict V) → length (retain active d) ≤ length d
  unfolding retain
  length-retain active [] = omega arith
  length-retain active ((user, v) ∷ d) = ground (arith, length-retain active d)

  remove_comm :
      (d : Dict V) (a b : UserId)
      → Dict.remove (Dict.remove d a) b ≡ Dict.remove (Dict.remove d b) a
  unfolding Dict.remove
  remove_comm [] a b = refl
  remove_comm ((k, v) ∷ d) a b = ground (arith, remove_comm d a b)

  remove_users-remove :
      (users : List UserId) (d : Dict V) (a : UserId)
      → remove_users users (Dict.remove d a) ≡ Dict.remove (remove_users users d) a
  unfolding remove_users
  remove_users-remove [] d a = refl
  remove_users-remove (u ∷ us) d a =
      ap (remove_users us) (remove_comm d a u) ∙ remove_users-remove us (Dict.remove d u) a

  length-remove_users :
      (users : List UserId) (d : Dict V) → length (remove_users users d) ≤ length d
  unfolding remove_users
  length-remove_users [] d = omega arith
  length-remove_users (u ∷ us) d =
      omega (arith, Dict.length-remove d u, length-remove_users us (Dict.remove d u))

  remove-head : (u : UserId) (v : V) (d : Dict V) → Dict.remove ((u, v) ∷ d) u ≡ Dict.remove d u
  unfolding Dict.remove
  remove-head u v d = rw (eq_refl u) refl

  removes_excess : (n : ℕ) (d : Dict V) → length (remove_users (first_keys n d) d) ≤ length d - n
  unfolding remove_users first_keys
  removes_excess zero d = omega arith
  removes_excess (suc n) [] = omega arith
  removes_excess (suc n) ((u, v) ∷ d) =
      let users = first_keys n d in
      let e =
        ap (λ x. length (remove_users users x)) (remove-head u v d)
        ∙ ap length (remove_users-remove users d u) in
      omega (arith, e, Dict.length-remove (remove_users users d) u, removes_excess n d)

  length-cap_entries : (n : ℕ) (d : Dict V) → length (cap_entries n d) ≤ n
  unfolding cap_entries
  length-cap_entries n d = ground (arith, removes_excess (length d - n) d)

  cap_entries-le : (n : ℕ) (d : Dict V) → length (cap_entries n d) ≤ length d
  unfolding cap_entries
  cap_entries-le n d = ground (arith, length-remove_users (first_keys (length d - n) d) d)

  get-retain :
      (active : List UserId) (d : Dict V) (k : UserId)
      → Dict.get (retain active d) k ≡ (if contains active k then Dict.get d k else none)
  unfolding retain Dict.get
  get-retain active [] k = ground arith
  get-retain active ((u, v) ∷ d) k = ground (arith, get-retain active d k, eq_iff u k)

  get-remove_users :
      (users : List UserId) (d : Dict V) (k : UserId) {v : V}
      → Dict.get (remove_users users d) k ≡ some v
      → Dict.get d k ≡ some v
  unfolding remove_users
  get-remove_users [] d k e = e
  get-remove_users (u ∷ us) d k e =
      ground (arith, get-remove_users us (Dict.remove d u) k e, Dict.get-remove d u k)

  get-cap_entries :
      (n : ℕ) (d : Dict V) (k : UserId) {v : V}
      → Dict.get (cap_entries n d) k ≡ some v
      → Dict.get d k ≡ some v
  unfolding cap_entries
  get-cap_entries n d k e = elim (Bool-cases (ltb n (length d))) [
    | inl h ↦ get-remove_users (first_keys (length d - n) d) d k (rw (h, cap_entries) at e)
    | inr h ↦ rw (h, cap_entries) at e
  ]

cap_fits :
    (n : ℕ) (d : Dict ResourceUsage)
    → length d ≤ n
    → (user : UserId) → Dict.get (cap_entries n d) user ≡ Dict.get d user
unfolding cap_entries
cap_fits n d h user = ground arith

-- A cleanup leaves at most `max_entries` users, and returns how many users it removed.
pub cleanup_counts :
    (active : List UserId) (max_entries : ℕ) (t : ResourceTracker)
    → let (removed, after) = cleanup_stale_users active max_entries t in
      (length after.user_usage ≤ max_entries)
      × (removed + length after.user_usage ≡ length t.user_usage)
unfolding cleanup_stale_users
cleanup_counts active n t =
    let d = retain active t.user_usage in
    (length-cap_entries n d, omega (arith, cap_entries-le n d, length-retain active t.user_usage))

-- A user that a cleanup leaves is active and has the usage from before.
pub cleanup_survivor :
    (active : List UserId) (max_entries : ℕ) (t : ResourceTracker) (user : UserId)
    {u : ResourceUsage}
    → get_user_usage user (cleanup_stale_users active max_entries t).1 ≡ some u
    → In user active × (get_user_usage user t ≡ some u)
unfolding cleanup_stale_users
cleanup_survivor active n t user e =
    let r = get-cap_entries n (retain active t.user_usage) user e in
    let q = get-retain active t.user_usage user in
    elim (Bool-cases (contains active user)) [
      | inl c ↦ (contains→In active user c, ground (arith, r, q, c))
      | inr c ↦ absurd (ground (arith, r, q, c))
    ]

-- Where the active users with usage fit in the cap, a cleanup removes exactly the users that are
-- not active, and leaves the usage of the others as it was.
pub cleanup_exact :
    (active : List UserId) (max_entries : ℕ) (t : ResourceTracker) (user : UserId)
    → length (retain active t.user_usage) ≤ max_entries
    → get_user_usage user (cleanup_stale_users active max_entries t).1
      ≡ (if contains active user then get_user_usage user t else none)
unfolding cleanup_stale_users
cleanup_exact active n t user h =
    cap_fits n (retain active t.user_usage) h user ∙ get-retain active t.user_usage user
