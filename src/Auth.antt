-- ===== src/Auth.antt =====
-- The authentication of every service: `guard` and the middlewares made of it in
-- internal/middleware/auth.go. Verifying a token is the JWT library's, a parameter.
pub mod Laws
use Prim.Native.Char.{code}
use elearning_platform.Prelude.{
  ℕ, String, Bool, not, ◌&&◌, List, [], ◌∷◌, Option, none, some, if◌then◌else◌, ◌==◌, str_eq,
  contains,
}
use elearning_platform.Content.Module.{nonempty}
use elearning_platform.Course.View.{Claims, role_admin}

abbrev pub role_manager : String
role_manager = "manager"

abbrev pub bearer_prefix : String
bearer_prefix = "Bearer "

-- strings.HasPrefix, and strings.TrimPrefix where it holds.
unfoldable pub strip_prefix : String → String → Option String
strip_prefix String.[] s = some s
strip_prefix (String.◌∷◌ c p) String.[] = none
strip_prefix (String.◌∷◌ c p) (String.◌∷◌ d s) =
    let rest = strip_prefix p s in if code c == code d then rest else none

-- The request ends with an error, or reaches the handler with its claims.
pub data Passage : Type 0 where
  denied : ℕ → String → Passage
  admitted : Claims → Passage

-- The part of `guard` behind the verified token.
unfoldable pub check_claims : String → List String → Claims → Passage
check_claims forbidden roles claims =
    if str_eq claims.subject ""
    then denied 401 "Invalid token: missing user ID"
    else if nonempty roles && not (contains roles claims.role)
    then denied 403 forbidden
    else admitted claims

-- `header` is the request's Authorization header, empty if it has none.
unfoldable pub guard : (String → Option Claims) → String → List String → String → Passage
unfolding strip_prefix check_claims
guard verify_token forbidden roles header = elim (strip_prefix bearer_prefix header) [
  | none ↦ denied 401 "Missing Authorization header"
  | some token ↦ elim (verify_token token) [
    | none ↦ denied 401 "Invalid token"
    | some claims ↦ check_claims forbidden roles claims
  ]
]

unfoldable pub auth : (String → Option Claims) → String → Passage
unfolding guard
auth verify_token header = guard verify_token "" [] header

unfoldable pub manager : (String → Option Claims) → String → Passage
unfolding guard
manager verify_token header =
    guard verify_token "Manager access required" (role_manager ∷ []) header

unfoldable pub admin : (String → Option Claims) → String → Passage
unfolding guard
admin verify_token header = guard verify_token "Admin access required" (role_admin ∷ []) header

unfoldable pub manager_or_admin : (String → Option Claims) → String → Passage
unfolding guard
manager_or_admin verify_token header =
    guard verify_token "Manager or admin access required" (role_manager ∷ role_admin ∷ []) header
