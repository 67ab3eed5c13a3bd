-- ===== src/Content/Scoring/Multiple.antt =====
-- Multiple-choice questions: `score_multiple` of scoring.go, whose counters decide the equality of
-- two sets of answer IDs.
use elearning_platform.Prelude.{
  ◌+◌, ◌≤◌, ◌<◌, ◌≡◌, refl, ◌↔◌, ◌≢◌, inl, inr, String, Bool, true, ◌&&◌, List, [], ◌∷◌, arith,
  eq_iff, str_eq, ◌==◌, Bool-cases, length, keep, contains, any, IsDistinct, IsSubset,
  contains-insert, insert-IsDistinct, length-le_of_IsSubset, IsSubset-of_length-le,
}
use elearning_platform.Prelude.Float64.{Float64}
use elearning_platform.Content.Quiz.{Answer, Question}
use elearning_platform.Content.Scoring.{correct_ids, selected_ids, count_selected, score_multiple}

-- Some correct answer of the list has this ID.
abbrev pub has_correct : List Answer → String → Bool
has_correct l id = any (λ a. a.correct && str_eq a.id id) l

contains-correct_ids :
    (l : List Answer) (id : String) → contains (correct_ids l) id ≡ has_correct l id
unfolding correct_ids
contains-correct_ids [] id = refl
contains-correct_ids (a ∷ l) id =
    ground (arith, contains-correct_ids l id, contains-insert a.id (correct_ids l) id)

contains-selected_ids :
    (l : List String) (id : String) → contains (selected_ids l) id ≡ contains l id
unfolding selected_ids
contains-selected_ids [] id = refl
contains-selected_ids (s ∷ l) id =
    ground (arith, contains-selected_ids l id, contains-insert s (selected_ids l) id)

correct_ids-IsDistinct : (l : List Answer) → IsDistinct (correct_ids l)
unfolding correct_ids
correct_ids-IsDistinct [] = tt
correct_ids-IsDistinct (a ∷ l) = elim (Bool-cases a.correct) [
  | inl e ↦ rw e (insert-IsDistinct a.id (correct_ids l) (correct_ids-IsDistinct l))
  | inr e ↦ rw e (correct_ids-IsDistinct l)
]

pub selected_ids-IsDistinct : (l : List String) → IsDistinct (selected_ids l)
unfolding selected_ids
selected_ids-IsDistinct [] = tt
selected_ids-IsDistinct (s ∷ l) = insert-IsDistinct s (selected_ids l) (selected_ids-IsDistinct l)

-- Every selected ID is counted once.
pub count_selected_sum :
    (ids l : List String) → (count_selected ids l).0 + (count_selected ids l).1 ≡ length l
unfolding count_selected
count_selected_sum ids [] = omega arith
count_selected_sum ids (s ∷ l) = ground (arith, count_selected_sum ids l)

no_misses-IsSubset : (ids l : List String) → (count_selected ids l).1 ≡ 0 → IsSubset l ids
unfolding count_selected
no_misses-IsSubset ids [] e s h = cc
no_misses-IsSubset ids (x ∷ l) e s h =
    ground (arith, λ (p : (count_selected ids l).1 ≡ 0). no_misses-IsSubset ids l p s, eq_iff x s)

IsSubset-tail : (x : String) (l ids : List String) → IsSubset (x ∷ l) ids → IsSubset l ids
IsSubset-tail x l ids sub s h = sub s (ground arith)

IsSubset-no_misses : (ids l : List String) → IsSubset l ids → (count_selected ids l).1 ≡ 0
unfolding count_selected
IsSubset-no_misses ids [] sub = refl
IsSubset-no_misses ids (x ∷ l) sub =
    ground (arith, IsSubset-no_misses ids l (IsSubset-tail x l ids sub), sub x, eq_iff x x)

-- The test `correctSelected == len(correctIDs) && falsePositives == 0`.
abbrev all_correct : List String → List String → Bool
all_correct ids l = (count_selected ids l).0 == length ids && (count_selected ids l).1 == 0

all_correct_sound :
    (ids l : List String)
    → IsDistinct l
    → all_correct ids l ≡ true
    → IsSubset l ids × IsSubset ids l
all_correct_sound ids l d h =
    let sub = no_misses-IsSubset ids l (ground arith) in
    (sub, IsSubset-of_length-le l ids d sub (ground (arith, count_selected_sum ids l)))

all_correct_complete :
    (ids l : List String)
    → IsDistinct ids
    → IsDistinct l
    → IsSubset l ids
    → IsSubset ids l
    → all_correct ids l ≡ true
all_correct_complete ids l di dl sub back = ground (
  arith,
  IsSubset-no_misses ids l sub,
  count_selected_sum ids l,
  length-le_of_IsSubset l ids dl sub,
  length-le_of_IsSubset ids l di back,
)

-- Two sets that include one another have the same members.
IsSubset-antisymm :
    (xs ys : List String)
    → IsSubset xs ys
    → IsSubset ys xs
    → (id : String) → contains xs id ≡ contains ys id
IsSubset-antisymm xs ys sub back id = ground (arith, sub id, back id)

-- A multiple-choice question is marked correct exactly when something was answered and the answered
-- IDs are, as a set, the IDs of the correct answers.
pub score_multiple-is_correct_iff :
    (f : Float64) (q : Question) (chosen : List String)
    → ((score_multiple f q chosen).is_correct ≡ true)
      ↔ ((chosen ≢ []) × ((id : String) → contains chosen id ≡ has_correct q.answers id))
unfolding score_multiple
score_multiple-is_correct_iff f q [] = (λ h. cc, λ h. absurd (h.0 refl))
score_multiple-is_correct_iff f q (s ∷ rest) =
    let ids = correct_ids q.answers in
    let l = selected_ids (s ∷ rest) in
    (
      λ h.
          let (sub, back) =
            all_correct_sound ids l (selected_ids-IsDistinct (s ∷ rest)) (ground arith) in
          (
            λ e. cc,
            λ id. ground (
              arith,
              contains-selected_ids (s ∷ rest) id,
              contains-correct_ids q.answers id,
              IsSubset-antisymm l ids sub back id,
            ),
          ),
      λ h. ground (
        arith,
        all_correct_complete ids l (correct_ids-IsDistinct q.answers)
            (selected_ids-IsDistinct (s ∷ rest))
            (λ t e.
              ground (
                arith,
                contains-selected_ids (s ∷ rest) t,
                contains-correct_ids q.answers t,
                h.1 t,
              ))
            (λ t e.
              ground (
                arith,
                contains-selected_ids (s ∷ rest) t,
                contains-correct_ids q.answers t,
                h.1 t,
              )),
      ),
    )

pub length-correct_ids : (l : List Answer) → length (correct_ids l) ≤ length l
unfolding correct_ids
length-correct_ids [] = omega arith
length-correct_ids (a ∷ l) = ground (arith, length-correct_ids l)

pub length-selected_ids : (l : List String) → length (selected_ids l) ≤ length l
unfolding selected_ids
length-selected_ids [] = omega arith
length-selected_ids (s ∷ l) = ground (arith, length-selected_ids l)

contains-pos : (xs : List String) (s : String) → contains xs s ≡ true → 0 < length xs
contains-pos [] s h = cc
contains-pos (x ∷ xs) s h = omega arith

pub correct_ids_pos : (l : List Answer) → any (λ a. a.correct) l ≡ true → 0 < length (correct_ids l)
unfolding correct_ids
correct_ids_pos [] h = cc
correct_ids_pos (a ∷ l) h = ground (arith, correct_ids_pos l, contains-pos (correct_ids l) a.id)

-- The hits are distinct members of the set of correct IDs.
contains-keep :
    (ids l : List String) (id : String)
    → contains (keep (contains ids) l) id ≡ true
    → (contains ids id ≡ true) × (contains l id ≡ true)
contains-keep ids [] id h = cc
contains-keep ids (x ∷ l) id h = ground (arith, contains-keep ids l id, eq_iff x id)

keep-IsDistinct : (ids l : List String) → IsDistinct l → IsDistinct (keep (contains ids) l)
keep-IsDistinct ids [] d = tt
keep-IsDistinct ids (x ∷ l) d = elim (Bool-cases (contains ids x)) [
  | inl e ↦ rw e (ground (arith, contains-keep ids l x), keep-IsDistinct ids l d.1)
  | inr e ↦ rw e (keep-IsDistinct ids l d.1)
]

length-hits : (ids l : List String) → (count_selected ids l).0 ≡ length (keep (contains ids) l)
unfolding count_selected
length-hits ids [] = refl
length-hits ids (x ∷ l) = ground (arith, length-hits ids l)

pub hits-le-length : (ids l : List String) → IsDistinct l → (count_selected ids l).0 ≤ length ids
hits-le-length ids l d = rw (length-hits ids l) (
    length-le_of_IsSubset (keep (contains ids) l) ids (keep-IsDistinct ids l d)
      (λ id h. (contains-keep ids l id h).0))
