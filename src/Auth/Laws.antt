-- ===== src/Auth/Laws.antt =====
-- Who passes the middlewares of internal/middleware/auth.go.
use elearning_platform.Prelude.{
  ◌≡◌, ◌↔◌, ◌⊎◌, refl, sym, ap, subst, ◌∙◌, inl, inr, String, true, false, List, [], ◌∷◌, Option,
  some, arith, str_eq, contains, Option-cases, Bool-cases,
}
use elearning_platform.Course.View.{Claims, role_admin}
use elearning_platform.Auth.{
  admitted, strip_prefix, bearer_prefix, check_claims, guard, manager, admin, manager_or_admin,
  role_manager,
}

-- The header carries a token that verifies as these claims.
abbrev pub Carries : (String → Option Claims) → String → Claims → Type 0
Carries verify_token header claims =
    (token : String) × (strip_prefix bearer_prefix header ≡ some token)
    × (verify_token token ≡ some claims)

-- What `guard` asks of the claims.
abbrev pub IsAllowed : List String → Claims → Type 0
IsAllowed roles claims =
    (str_eq claims.subject "" ≡ false) × ((roles ≡ []) ⊎ (contains roles claims.role ≡ true))

check_claims-admitted_iff :
    (forbidden : String) (roles : List String) (held claims : Claims)
    → (check_claims forbidden roles held ≡ admitted claims)
      ↔ ((held ≡ claims) × IsAllowed roles held)
unfolding check_claims
check_claims-admitted_iff forbidden [] held claims =
    (λ h. (ground (arith, h), (ground (arith, h), inl refl)), λ h. ground (arith, h))
check_claims-admitted_iff forbidden (r ∷ rs) held claims = (
  λ h. (ground (arith, h), (ground (arith, h), inr (ground (arith, h)))),
  λ h. elim h.1.1 [ inl e ↦ cc | inr e ↦ ground (arith, h) ],
)

-- A request passes the guard with some claims exactly when its Authorization header is the bearer prefix
-- and a token that verifies as these claims, they name a subject, and the allowed roles, if there are
-- any, have theirs among them.
pub guard-admitted_iff :
    (verify_token : String → Option Claims) (forbidden : String) (roles : List String)
    (header : String) (claims : Claims)
    → (guard verify_token forbidden roles header ≡ admitted claims)
      ↔ (Carries verify_token header claims × IsAllowed roles claims)
unfolding guard
guard-admitted_iff verify_token forbidden roles header claims =
    elim (Option-cases (strip_prefix bearer_prefix header)) [
      | inl e ↦ rw (guard, e) (λ h. cc, λ h. cc (h.0.1))
      | inr (token, e) ↦ elim (Option-cases (verify_token token)) [
        | inl v ↦ rw (guard, e, v) (λ h. cc, λ h. cc (h.0.1, h.0.2, v))
        | inr (held, v) ↦
            let (to, from) = check_claims-admitted_iff forbidden roles held claims in
            rw (guard, e, v)
              (
                λ h.
                    let (same, allowed) = to h in
                    ((token, refl, v ∙ ap some same), subst (IsAllowed roles) same allowed),
                λ h.
                    let same : held ≡ claims = cc (h.0.1, h.0.2, v) in
                    from (same, subst (IsAllowed roles) (sym same) h.1),
              )
      ]
    ]

-- A request passes the middleware for managers and admins, with some claims, exactly when it passes the
-- one for managers or the one for admins with them.
pub manager_or_admin-admitted_iff :
    (verify_token : String → Option Claims) (header : String) (claims : Claims)
    → (manager_or_admin verify_token header ≡ admitted claims) ↔ (
        (manager verify_token header ≡ admitted claims)
        ⊎ (admin verify_token header ≡ admitted claims))
unfolding manager_or_admin manager admin
manager_or_admin-admitted_iff verify_token header claims =
    let either =
      guard-admitted_iff verify_token "Manager or admin access required"
        (role_manager ∷ role_admin ∷ []) header claims in
    let first =
      guard-admitted_iff verify_token "Manager access required" (role_manager ∷ []) header claims in
    let second =
      guard-admitted_iff verify_token "Admin access required" (role_admin ∷ []) header claims in
    (
      λ h.
          let (carried, (named, role)) = either.0 h in
          elim role [
            | inl e ↦ cc
            | inr r ↦ elim (Bool-cases (str_eq role_manager claims.role)) [
              | inl m ↦ inl (first.1 (carried, (named, inr (ground arith))))
              | inr n ↦ inr (second.1 (carried, (named, inr (ground arith))))
            ]
          ],
      λ h. elim h [
        | inl m ↦
            let (carried, (named, role)) = first.0 m in
            either.1 (carried, (named, elim role [ inl e ↦ cc | inr r ↦ inr (ground arith) ]))
        | inr a ↦
            let (carried, (named, role)) = second.0 a in
            either.1 (carried, (named, elim role [ inl e ↦ cc | inr r ↦ inr (ground arith) ]))
      ],
    )
