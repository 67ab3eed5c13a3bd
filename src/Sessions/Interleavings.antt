-- ===== src/Sessions/Interleavings.antt =====
-- Requests at the same time: BookSession counts the seats in one statement and books in another, and
-- other requests' statements run in between.
use elearning_platform.Prelude.{
  ℕ, suc, ◌+◌, ◌≤◌, ◌<◌, ◌≡◌, ap, ◌∙◌, String, Bool, true, List, [], ◌∷◌, ◌++◌, Option, none, subst,
  arith, eq_iff, if◌then◌else◌,
}
use elearning_platform.Prelude.Int.{ℤ, pos}
use elearning_platform.Sessions.Bookings.{
  BookingKey, Bookings, key_eq, is_of, count_by_session, book, unbook, mark_present, check_capacity,
  Faults, SessionEntry, session_capacity,
}
use elearning_platform.Sessions.Capacity.{
  count_by_session-book, count_by_session-mark_present, count_by_session-delete,
}

-- The table, and the requests that have passed the capacity check and have not booked yet.
pub record Store : Type 0 where
  pub bookings : Bookings
  pub pending : List BookingKey

unfoldable pub waiting : String → String → List BookingKey → ℕ
waiting course session [] = 0
waiting course session (k ∷ ks) =
    let rest = waiting course session ks in if is_of course session k then suc rest else rest

-- What a fetch of a course's sessions may give: whether the slug has the allowed shape, and the answer of
-- course-service, if there is one.
abbrev pub Answers : Type 1
Answers = String → Bool → Option (List SessionEntry) → Type 0

-- One statement of a request. A request fetches the sessions before its check.
pub data Step (answers : Answers) : Store → Store → Type 0 where
  checked :
      {s : Store} (faults : Faults) (valid : Bool) (fetched : Option (List SessionEntry))
      (k : BookingKey)
      → answers k.course_slug valid fetched
      → check_capacity faults
          (session_capacity valid fetched k.session_id)
          (count_by_session k.course_slug k.session_id s.bookings)
        ≡ none
      → Step answers s (record s { pending = k ∷ s.pending })
  booked :
      {s : Store} (before after : List BookingKey) (now : ℤ) (k : BookingKey)
      → s.pending ≡ before ++ k ∷ after
      → Step answers s (record { bookings = book now k s.bookings; pending = before ++ after })
  dropped :
      {s : Store} (before after : List BookingKey) (k : BookingKey)
      → s.pending ≡ before ++ k ∷ after
      → Step answers s (record s { pending = before ++ after })
  unbooked :
      {s : Store} (k : BookingKey) → Step answers s (record s { bookings = unbook k s.bookings })
  marked :
      {s : Store} (k : BookingKey) (present : Bool)
      → Step answers s (record s { bookings = mark_present k present s.bookings })

-- The stores reached from the empty one with at most `most` requests waiting for the session at once.
pub data Reached (answers : Answers) (course session : String) (most : ℕ) : Store → Type 0 where
  start : Reached answers course session most (record { bookings = []; pending = [] })
  next :
      {s s' : Store}
      → Reached answers course session most s
      → Step answers s s'
      → waiting course session s'.pending ≤ most
      → Reached answers course session most s'

module _ (course session : String) where
  waiting-append :
      (before after : List BookingKey) (k : BookingKey)
      → waiting course session (before ++ k ∷ after)
        ≡ waiting course session (before ++ after) + (if is_of course session k then 1 else 0)
  unfolding waiting
  waiting-append [] after k = ground arith
  waiting-append (b ∷ before) after k = ground (arith, waiting-append before after k)

  -- Seats taken and requests waiting.
  abbrev pub taken : Store → ℕ
  taken s = count_by_session course session s.bookings + waiting course session s.pending

  -- A request for the session that passes the check has found a seat.
  seat_free :
      (seats : ℕ) (faults : Faults) (valid : Bool) (fetched : Option (List SessionEntry))
      (k : BookingKey) (t : Bookings)
      → (k.course_slug ≡ course → session_capacity valid fetched session ≡ pos seats)
      → 0 < seats
      → check_capacity faults
          (session_capacity valid fetched k.session_id)
          (count_by_session k.course_slug k.session_id t)
        ≡ none
      → is_of course session k ≡ true
      → count_by_session course session t < seats
  unfolding check_capacity
  seat_free seats faults valid fetched k t answer some_seat free mine =
      let c : k.course_slug ≡ course = ground (arith, eq_iff k.course_slug course) in
      let d : k.session_id ≡ session = ground (arith, eq_iff k.session_id session) in
      let limit : session_capacity valid fetched k.session_id ≡ pos seats =
        ap (session_capacity valid fetched) d ∙ answer c in
      let count : count_by_session k.course_slug k.session_id t
          ≡ count_by_session course session t =
        cc in
      ground arith

  -- Where course-service answers for the course, the session's capacity is `seats`.
  abbrev pub HasSeats : Answers → ℕ → Type 0
  HasSeats answers seats =
      (valid : Bool) (fetched : Option (List SessionEntry))
      → answers course valid fetched
      → session_capacity valid fetched session ≡ pos seats

  taken-Step :
      (answers : Answers) (most seats : ℕ) (s s' : Store)
      → HasSeats answers seats
      → 0 < seats
      → Step answers s s'
      → waiting course session s'.pending ≤ most
      → taken s < seats + most
      → taken s' < seats + most
  unfolding waiting check_capacity unbook
  taken-Step answers most seats s _ e some_seat (checked faults valid fetched k a free) few h =
      ground (
        arith,
        seat_free seats faults valid fetched k s.bookings
            (λ c. e valid fetched (subst (λ x. answers x valid fetched) c a)) some_seat free,
      )
  taken-Step answers most seats s _ e some_seat (booked before after now k p) few h =
      let w = ap (waiting course session) p ∙ waiting-append before after k in
      ground (arith, w, count_by_session-book course session now k s.bookings)
  taken-Step answers most seats s _ e some_seat (dropped before after k p) few h =
      let w = ap (waiting course session) p ∙ waiting-append before after k in ground (arith, w)
  taken-Step answers most seats s _ e some_seat (unbooked k) few h =
      ground (arith, count_by_session-delete course session (key_eq k) s.bookings)
  taken-Step answers most seats s _ e some_seat (marked k present) few h =
      ground (arith, count_by_session-mark_present course session k present s.bookings)

  -- However the statements of concurrent requests interleave: if course-service answers every request
  -- for the course with the session's positive capacity, and at most `most` requests that passed the
  -- capacity check wait to book it at once, then its bookings stay below the capacity plus `most`.
  -- With one request at a time they stay within the capacity.
  pub count_by_session_bound :
      (answers : Answers) (most seats : ℕ) (s : Store)
      → HasSeats answers seats
      → 0 < seats
      → Reached answers course session most s
      → count_by_session course session s.bookings + waiting course session s.pending < seats + most
  unfolding count_by_session waiting
  count_by_session_bound answers most seats _ e some_seat start = omega arith
  count_by_session_bound answers most seats s' e some_seat (next {s} r step few) =
      taken-Step answers most seats s s' e some_seat step few
        (count_by_session_bound answers most seats s e some_seat r)
