-- ===== src/Sessions/Capacity.antt =====
-- Requests one at a time: what each leaves of the seats of a session.
use elearning_platform.Prelude.{
  ℕ, ◌+◌, ◌≤◌, ◌<◌, ◌≡◌, ◌≢◌, refl, ◌⊎◌, inl, inr, String, Bool, false, List, [], ◌∷◌, Option, none,
  some, arith, if◌then◌else◌, Option-cases,
}
use elearning_platform.Prelude.Int.{ℤ, pos}
use elearning_platform.Prelude.Table.{get, put, delete, get-put}
use elearning_platform.Sessions.Bookings.{
  BookingKey, SessionBooking, Bookings, booking_key_eq, key_eq, key_eq_iff, is_of, count_by_session,
  book, mark_present, check_capacity, book_session, no_content, Faults, SessionEntry,
  session_capacity,
}

module _ (course session : String) where
  -- A new row counts if it is one of the session's, and a rewritten one counts as before.
  pub count_by_session-put :
      (k : BookingKey) (b : SessionBooking) (t : Bookings)
      → count_by_session course session (put booking_key_eq k b t)
        ≡ count_by_session course session t + (elim (get booking_key_eq k t) [
          | none ↦ if is_of course session k then 1 else 0
          | some old ↦ 0
        ])
  unfolding count_by_session put get
  count_by_session-put k b [] = ground arith
  count_by_session-put k b ((j, w) ∷ t) = ground (arith, count_by_session-put k b t, key_eq_iff j k)

  pub count_by_session-delete :
      (p : BookingKey → Bool) (t : Bookings)
      → count_by_session course session (delete booking_key_eq p t)
        ≤ count_by_session course session t
  unfolding count_by_session delete
  count_by_session-delete p [] = omega arith
  count_by_session-delete p ((j, w) ∷ t) = ground (arith, count_by_session-delete p t)

  pub count_by_session-book :
      (now : ℤ) (k : BookingKey) (t : Bookings)
      → count_by_session course session (book now k t)
        ≤ count_by_session course session t + (if is_of course session k then 1 else 0)
  unfolding book
  count_by_session-book now k t =
      ground (arith, count_by_session-put k (record { booked_at = now; present = false }) t)

  pub count_by_session-mark_present :
      (k : BookingKey) (present : Bool) (t : Bookings)
      → count_by_session course session (mark_present k present t)
        ≡ count_by_session course session t
  unfolding mark_present
  count_by_session-mark_present k present t = elim (Option-cases (get booking_key_eq k t)) [
    | inl e ↦ rw (mark_present, e) refl
    | inr (b, e) ↦
        rw (mark_present, e)
          (ground (arith, count_by_session-put k (record b { present = present }) t))
  ]

-- While requests run one at a time and course-service answers with a positive capacity, booking never
-- takes the session beyond it: whatever the request is answered, a session within its capacity stays
-- within it.
pub book_session-within :
    (faults : Faults) (valid : Bool) (fetched : Option (List SessionEntry)) (seats : ℕ) (now : ℤ)
    (k : BookingKey) (t : Bookings)
    → session_capacity valid fetched k.session_id ≡ pos seats
    → 0 < seats
    → count_by_session k.course_slug k.session_id t ≤ seats
    → count_by_session k.course_slug k.session_id (book_session faults valid fetched now k t).1
      ≤ seats
unfolding book_session check_capacity
book_session-within faults valid fetched seats now k t answer some_seat within =
    ground (arith, answer, count_by_session-book k.course_slug k.session_id now k t)

-- The booking that a learner has after a request answered with success: the earlier one if there was
-- one, and a new one otherwise.
abbrev pub kept_or_new : ℤ → Option SessionBooking → SessionBooking
kept_or_new now none = record { booked_at = now; present = false }
kept_or_new now (some b) = b

get-book :
    (now : ℤ) (k j : BookingKey) (t : Bookings)
    → get booking_key_eq j (book now k t) ≡ (
        if key_eq k j
        then some (kept_or_new now (get booking_key_eq k t))
        else get booking_key_eq j t)
unfolding book
get-book now k j t = elim (Option-cases (get booking_key_eq k t)) [
  | inl e ↦
      ground (arith, e, get-put booking_key_eq k j (record { booked_at = now; present = false }) t)
  | inr (b, e) ↦ ground (arith, key_eq_iff k j, e)
]

-- A request to book answers with success and leaves the learner a booking, the earlier one if there
-- was one, or answers with a failure and leaves every row as it is; rows of other keys stay either way.
pub get-book_session :
    (faults : Faults) (valid : Bool) (fetched : Option (List SessionEntry)) (now : ℤ)
    (k j : BookingKey) (t : Bookings)
    → let (answer, t') = book_session faults valid fetched now k t in
      ((answer ≡ no_content)
        × (get booking_key_eq j t' ≡ (
            if key_eq k j
            then some (kept_or_new now (get booking_key_eq k t))
            else get booking_key_eq j t)))
      ⊎ ((answer ≢ no_content) × (t' ≡ t))
unfolding book_session check_capacity
get-book_session faults valid fetched now k j t = ground (arith, get-book now k j t)
