-- ===== src/Examples/Auth.antt =====
-- Requests with a token that one verifier knows.
use elearning_platform.Prelude.{
  ◌≡◌, refl, String, [], ◌∷◌, Option, none, some, inr, if◌then◌else◌, str_eq,
}
use elearning_platform.Course.View.{Claims}
use elearning_platform.Auth.{admitted, strip_prefix, guard}
use elearning_platform.Auth.Laws.{guard-admitted_iff}

abbrev boss : Claims
boss = record { subject = "eve"; email = ""; role = "manager"; preferred_username = "eve" }

abbrev knows_one : String → Option Claims
knows_one token = if str_eq token "t1" then some boss else none

guard-admitted_iff_example :
    guard knows_one "Manager access required" ("manager" ∷ []) "Bearer t1" ≡ admitted boss
unfolding strip_prefix
guard-admitted_iff_example =
    (guard-admitted_iff knows_one "Manager access required" ("manager" ∷ []) "Bearer t1" boss).1
      (("t1", refl, refl), (refl, inr refl))
