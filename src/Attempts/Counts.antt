-- ===== src/Attempts/Counts.antt =====
-- The multi-row upsert and update of quiz_attempt.go: what each leaves in every row.
use elearning_platform.Prelude.{
  ◌≡◌, refl, ap, inl, inr, String, true, false, ◌&&◌, List, [], ◌∷◌, Option, none, some, arith,
  eq_iff, str_eq, contains, IsDistinct, if◌then◌else◌, Assoc, lookup, map, Option-cases,
}
use elearning_platform.Prelude.Int.{ℤ}
use elearning_platform.Prelude.Table.{get, put, get-put}
use elearning_platform.Attempts.Rows.{
  AttemptKey, RowKey, Attempt, Attempts, key_eq, row, row_key_eq, key_eq_iff, row_eq_iff,
}
use elearning_platform.Attempts.Repository.{upsert_rows, next_attempt, set_deadlines}

-- `get-put` at a row of the key, with the test on the row's two parts.
pub get-put-row :
    (key : AttemptKey) (id : String) (a : Attempt) (t : Attempts) (rk : RowKey)
    → get row_key_eq rk (put row_key_eq (row key id) a t)
      ≡ (if key_eq rk.key key && str_eq id rk.question_id then some a else get row_key_eq rk t)
get-put-row key id a t rk =
    ground
      (arith, get-put row_key_eq (row key id) rk a t, key_eq_iff rk.key key, key_eq_iff key rk.key)

pub get-row :
    (key : AttemptKey) (id : String) (t : Attempts) (rk : RowKey)
    → key_eq rk.key key ≡ true
    → str_eq id rk.question_id ≡ true
    → get row_key_eq (row key id) t ≡ get row_key_eq rk t
get-row key id t rk h e =
    ap (λ k. get row_key_eq k t)
      ((row_eq_iff (row key id) rk).0
        (ground (arith, key_eq_iff rk.key key, key_eq_iff key rk.key)))

-- The upsert of distinct question IDs counts one attempt more on each of their rows of the key, from
-- nothing on a new one, and leaves every other row as it is.
pub get-upsert_rows :
    (key : AttemptKey) (ids : List String) (t : Attempts) (rk : RowKey)
    → IsDistinct ids
    → get row_key_eq rk (upsert_rows key ids t).1 ≡ (
        if key_eq rk.key key && contains ids rk.question_id
        then some (next_attempt (get row_key_eq rk t))
        else get row_key_eq rk t)
unfolding upsert_rows
get-upsert_rows key [] t rk d = ground arith
get-upsert_rows key (id ∷ ids) t rk d =
    let a = next_attempt (get row_key_eq (row key id) t) in
    ground (
      arith,
      get-upsert_rows key ids (put row_key_eq (row key id) a t) rk d.1,
      get-put-row key id a t rk,
      get-row key id t rk,
      eq_iff id rk.question_id,
    )

abbrev pub with_deadline : Option ℤ → Option Attempt → Option Attempt
with_deadline none a = a
with_deadline (some deadline) none = none
with_deadline (some deadline) (some a) = some (record a { cooldown_until = some deadline })

lookup-eq-none :
    (id : String) (ds : Assoc ℤ) → contains (map (λ d. d.0) ds) id ≡ false → lookup id ds ≡ none
unfolding lookup
lookup-eq-none id [] h = refl
lookup-eq-none id ((j, d) ∷ ds) h = ground (arith, lookup-eq-none id ds)

-- The update of distinct question IDs gives each of their rows of the key that is there its deadline,
-- creates no row, and leaves every other row as it is.
pub get-set_deadlines :
    (key : AttemptKey) (ds : Assoc ℤ) (t : Attempts) (rk : RowKey)
    → IsDistinct (map (λ d. d.0) ds)
    → get row_key_eq rk (set_deadlines key ds t) ≡ (
        if key_eq rk.key key
        then with_deadline (lookup rk.question_id ds) (get row_key_eq rk t)
        else get row_key_eq rk t)
unfolding set_deadlines lookup
get-set_deadlines key [] t rk d = ground arith
get-set_deadlines key ((id, deadline) ∷ ds) t rk d =
    elim (Option-cases (get row_key_eq (row key id) t)) [
      | inl missing ↦ rw missing (
          ground (
            arith,
            get-set_deadlines key ds t rk d.1,
            get-row key id t rk,
            lookup-eq-none id ds,
            eq_iff id rk.question_id,
          ))
      | inr (a, found) ↦
          let a' : Attempt = record a { cooldown_until = some deadline } in
          rw found (
            ground (
              arith,
              get-set_deadlines key ds (put row_key_eq (row key id) a' t) rk d.1,
              get-put-row key id a' t rk,
              get-row key id t rk,
              lookup-eq-none id ds,
              eq_iff id rk.question_id,
            ))
    ]
