-- ===== src/Sessions/Bookings.antt =====
-- The table session_bookings with the statements of user-service/internal/repository/session_booking.go,
-- and the handlers of user-service/internal/handlers/sessions.go that change it.
use elearning_platform.Prelude.{
  ℕ, suc, String, Bool, true, false, ◌&&◌, List, [], ◌∷◌, Option, none, some, ◌≡◌, ◌↔◌, arith,
  eq_iff, if◌then◌else◌, str_eq,
}
use elearning_platform.Prelude.Int.{ℤ, pos, ltb_ℤ, leb_ℤ}
use elearning_platform.Prelude.Table.{Eq, Table, get, put, delete}

-- The unique index of the table.
pub record BookingKey : Type 0 where
  pub user_id : String
  pub course_slug : String
  pub session_id : String

-- The other columns of `SessionBooking`, without its generated ID.
pub record SessionBooking : Type 0 where
  pub booked_at : ℤ
  pub present : Bool

abbrev pub key_eq : BookingKey → BookingKey → Bool
key_eq a b =
    str_eq a.user_id b.user_id
    && str_eq a.course_slug b.course_slug
    && str_eq a.session_id b.session_id

pub key_eq_iff : (a b : BookingKey) → (key_eq a b ≡ true) ↔ (a ≡ b)
key_eq_iff a b = ground (
  arith,
  eq_iff a.user_id b.user_id,
  eq_iff a.course_slug b.course_slug,
  eq_iff a.session_id b.session_id,
)

abbrev pub booking_key_eq : Eq BookingKey
booking_key_eq = record { beq = key_eq; beq_iff = key_eq_iff }

abbrev pub Bookings : Type 0
Bookings = Table BookingKey SessionBooking

-- Whether the key is one of the session's.
abbrev pub is_of : String → String → BookingKey → Bool
is_of course session k = str_eq k.course_slug course && str_eq k.session_id session

unfoldable pub count_by_session : String → String → Bookings → ℕ
count_by_session course session [] = 0
count_by_session course session ((k, b) ∷ t) =
    let rest = count_by_session course session t in
    if is_of course session k then suc rest else rest

-- FirstOrCreate: a booking that is there stays as it is. The unique index makes it one step.
unfoldable pub book : ℤ → BookingKey → Bookings → Bookings
book now k t = elim (get booking_key_eq k t) [
  | none ↦ put booking_key_eq k (record { booked_at = now; present = false }) t
  | some b ↦ t
]

unfoldable pub unbook : BookingKey → Bookings → Bookings
unbook k t = delete booking_key_eq (key_eq k) t

-- An update of a row that is not there changes nothing.
unfoldable pub mark_present : BookingKey → Bool → Bookings → Bookings
mark_present k present t = elim (get booking_key_eq k t) [
  | none ↦ t
  | some b ↦ put booking_key_eq k (record b { present = present }) t
]

pub record SessionEntry : Type 0 where
  pub id : String
  pub capacity : ℤ

unfoldable pub find_capacity : List SessionEntry → String → ℤ
find_capacity [] session = pos 0
find_capacity (s ∷ rest) session =
    let later = find_capacity rest session in if str_eq s.id session then s.capacity else later

-- `valid` says whether the slug has the allowed shape; `fetched` is what course-service answers.
unfoldable pub session_capacity : Bool → Option (List SessionEntry) → String → ℤ
unfolding find_capacity
session_capacity false fetched session = pos 0
session_capacity true none session = pos 0
session_capacity true (some sessions) session = find_capacity sessions session

-- A status without a message is written as a header alone.
pub data BookingReply : Type 0 where
  no_content : BookingReply
  done : BookingReply
  failure : ℕ → String → BookingReply

-- Which statements the database refuses.
pub record Faults : Type 0 where
  pub count : Bool
  pub write : Bool

-- The refusal of BookSession before it books, if any.
unfoldable pub check_capacity : Faults → ℤ → ℕ → Option BookingReply
check_capacity faults capacity count =
    if ltb_ℤ (pos 0) capacity
    then if faults.count
      then some (failure 500 "Failed to check session capacity")
      else if leb_ℤ capacity (pos count)
      then some (failure 409 "Session is full")
      else none
    else none

-- The request runs alone: nothing happens between its two statements. The check is skipped where the
-- capacity is 0, so also where course-service does not answer.
unfoldable pub book_session :
    Faults → Bool → Option (List SessionEntry) → ℤ → BookingKey → Bookings → BookingReply × Bookings
unfolding session_capacity check_capacity book
book_session faults valid fetched now k t =
    let capacity = session_capacity valid fetched k.session_id in
    elim (check_capacity faults capacity (count_by_session k.course_slug k.session_id t)) [
      | some refusal ↦ (refusal, t)
      | none ↦
          if faults.write
          then (failure 500 "Failed to book session", t)
          else (no_content, book now k t)
    ]

unfoldable pub unbook_session : Faults → BookingKey → Bookings → BookingReply × Bookings
unfolding unbook
unbook_session faults k t =
    if faults.write then (failure 500 "Failed to unbook session", t) else (no_content, unbook k t)

-- `body` is the decoded request, if it decodes.
unfoldable pub mark_session_presence :
    Faults → BookingKey → Option Bool → Bookings → BookingReply × Bookings
unfolding mark_present
mark_session_presence faults k none t = (failure 400 "Invalid request body", t)
mark_session_presence faults k (some present) t =
    if faults.write
    then (failure 500 "Failed to update presence", t)
    else (done, mark_present k present t)
