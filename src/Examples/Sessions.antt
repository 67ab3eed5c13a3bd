-- ===== src/Examples/Sessions.antt =====
-- Two learners and a session with one seat.
use elearning_platform.Prelude.{
  ◌+◌, ◌≤◌, ◌<◌, ◌≡◌, ◌≢◌, refl, ◌⊎◌, none, true, false, String, List, [], ◌∷◌, some, arith,
  if◌then◌else◌,
}
use elearning_platform.Prelude.Int.{pos}
use elearning_platform.Prelude.Table.{get, put}
use elearning_platform.Sessions.Bookings.{
  BookingKey, Bookings, booking_key_eq, key_eq, count_by_session, book, check_capacity,
  book_session, no_content, Faults, SessionEntry, session_capacity, find_capacity,
}
use elearning_platform.Sessions.Capacity.{book_session-within, get-book_session, kept_or_new}
use elearning_platform.Sessions.Interleavings.{
  Store, checked, booked, start, next, Reached, waiting, Answers, HasSeats, count_by_session_bound,
}

abbrev seat_of : String → BookingKey
seat_of user = record { user_id = user; course_slug = "go"; session_id = "paris" }

abbrev running : Faults
running = record { count = false; write = false }

abbrev one_entry : List SessionEntry
one_entry = record { id = "paris"; capacity = pos 1 } ∷ []

-- course-service answers with the session's one seat.
abbrev one_seat : Answers
one_seat course valid fetched = (valid ≡ true) × (fetched ≡ some one_entry)

one_seat-HasSeats : HasSeats "go" "paris" one_seat 1
one_seat-HasSeats valid fetched (v, s) = rw (v, s) (unfold session_capacity find_capacity in refl)

abbrev taken_by_ann : Bookings
taken_by_ann = (seat_of "ann", record { booked_at = pos 5; present = false }) ∷ []

book_session-within_example :
    count_by_session "go" "paris"
      (book_session running true (some one_entry) (pos 9) (seat_of "bob") taken_by_ann).1
    ≤ 1
unfolding count_by_session session_capacity find_capacity
book_session-within_example =
    book_session-within running true (some one_entry) 1 (pos 9) (seat_of "bob") taken_by_ann refl
      (omega arith) (omega arith)

get-book_session_example :
    let (answer, t') = book_session running true none (pos 9) (seat_of "ann") taken_by_ann in
    ((answer ≡ no_content)
      × (get booking_key_eq (seat_of "ann") t' ≡ (
          if key_eq (seat_of "ann") (seat_of "ann")
          then some (kept_or_new (pos 9) (get booking_key_eq (seat_of "ann") taken_by_ann))
          else get booking_key_eq (seat_of "ann") taken_by_ann)))
    ⊎ ((answer ≢ no_content) × (t' ≡ taken_by_ann))
get-book_session_example =
    get-book_session running true none (pos 9) (seat_of "ann") (seat_of "ann") taken_by_ann

-- Both requests pass the check before either books: the session is overbooked.
abbrev overbooked : Store
overbooked = record {
  bookings = book (pos 2) (seat_of "bob") (book (pos 1) (seat_of "ann") []);
  pending = [];
}

overbooked-Reached : Reached one_seat "go" "paris" 2 overbooked
unfolding check_capacity count_by_session waiting session_capacity find_capacity
overbooked-Reached =
    next
      (next
        (next
          (next start (checked running true (some one_entry) (seat_of "ann") (refl, refl) refl)
            (omega arith))
          (checked running true (some one_entry) (seat_of "bob") (refl, refl) refl) (omega arith))
        (booked (seat_of "bob" ∷ []) [] (pos 1) (seat_of "ann") refl) (omega arith))
      (booked [] [] (pos 2) (seat_of "bob") refl) (omega arith)

two_bookings : count_by_session "go" "paris" overbooked.bookings ≡ 2
unfolding count_by_session book get put
two_bookings = refl

count_by_session_bound_example :
    count_by_session "go" "paris" overbooked.bookings + waiting "go" "paris" overbooked.pending
    < 1 + 2
count_by_session_bound_example =
    count_by_session_bound "go" "paris" one_seat 2 1 overbooked one_seat-HasSeats (omega arith)
      overbooked-Reached
