-- ===== src/Mapping/Defaults.antt =====
-- Filling in the defaults twice is filling them in once.
use elearning_platform.Prelude.{
  ℕ, suc, String, Bool, true, false, List, [], ◌∷◌, if◌then◌else◌, str_eq, ◌≡◌, refl, sym, ap, ◌∙◌,
  inl, inr, arith, Bool-cases,
}
use elearning_platform.Prelude.Int.{ℤ, pos, eqb_ℤ}
use elearning_platform.Prelude.Float64.{Float64, Float64Laws}
use elearning_platform.Content.Quiz.{CooldownSpec, Question}
use elearning_platform.Mapping.{
  Names, or_text, or_number, filled_spec, is_zero_num, is_zero_spec, zero_spec,
  apply_cooldown_defaults, defaulted_question, defaulted_questions,
}

or_text_self : (default : String) → or_text default default ≡ default
or_text_self default = elim (Bool-cases (str_eq default "")) [
  | inl e ↦ rw e refl
  | inr e ↦ rw e refl
]

pub or_text_idem : (default s : String) → or_text default (or_text default s) ≡ or_text default s
or_text_idem default s = elim (Bool-cases (str_eq s "")) [
  | inl e ↦ rw e (or_text_self default)
  | inr e ↦ rw (e, e) refl
]

or_number_self : (default : ℤ) → or_number default default ≡ default
or_number_self default = elim (Bool-cases (eqb_ℤ default (pos 0))) [
  | inl e ↦ rw e refl
  | inr e ↦ rw e refl
]

or_number_idem : (k n : ℤ) → or_number k (or_number k n) ≡ or_number k n
or_number_idem k n = elim (Bool-cases (eqb_ℤ n (pos 0))) [
  | inl e ↦ rw e (or_number_self k)
  | inr e ↦ rw (e, e) refl
]

defaulted_question_idem :
    (names : Names) (index : ℕ) (q : Question)
    → defaulted_question names index (defaulted_question names index q)
      ≡ defaulted_question names index q
defaulted_question_idem names index q =
    rw
      (
        or_text_idem (names.question_id (suc index)) q.id,
        or_text_idem "medium" q.difficulty,
        or_number_idem (pos 1) q.points,
      )
      refl

pub defaulted_questions_idem :
    (names : Names) (index : ℕ) (qs : List Question)
    → defaulted_questions names index (defaulted_questions names index qs)
      ≡ defaulted_questions names index qs
unfolding defaulted_questions
defaulted_questions_idem names index [] = refl
defaulted_questions_idem names index (q ∷ qs) =
    ap (λ x. x ∷ defaulted_questions names (suc index) (defaulted_questions names (suc index) qs))
      (defaulted_question_idem names index q)
    ∙ ap (λ xs. defaulted_question names index q ∷ xs)
        (defaulted_questions_idem names (suc index) qs)

module _ (f : Float64) (laws : Float64Laws f) where
  abbrev or_one : f.Num → f.Num
  or_one x = if is_zero_num f x then f.of_int (pos 1) else x

  one_nonzero : is_zero_num f (f.of_int (pos 1)) ≡ false
  one_nonzero =
      rw (laws.leb_of_int (pos 1) (pos 0) (omega arith, omega arith) (omega arith, omega arith))
        refl

  zero_is_zero : is_zero_num f (f.of_int (pos 0)) ≡ true
  zero_is_zero =
      rw (laws.leb_of_int (pos 0) (pos 0) (omega arith, omega arith) (omega arith, omega arith))
        refl

  multiplier_idem : (x : f.Num) → or_one (or_one x) ≡ or_one x
  multiplier_idem x = elim (Bool-cases (is_zero_num f x)) [
    | inl e ↦ rw (e, one_nonzero) refl
    | inr e ↦ rw (e, e) refl
  ]

  filled_spec-nonzero : (s : CooldownSpec f) → is_zero_spec f (filled_spec f s) ≡ false
  filled_spec-nonzero s = elim (Bool-cases (str_eq s.strategy "")) [
    | inl e ↦ rw e refl
    | inr e ↦ rw (e, e) refl
  ]

  filled_spec_idem : (s : CooldownSpec f) → filled_spec f (filled_spec f s) ≡ filled_spec f s
  filled_spec_idem s =
      rw
        (
          or_text_idem "exponential" s.strategy,
          or_number_idem (pos 30) s.base_seconds,
          multiplier_idem s.multiplier,
        )
        refl

  pub apply_cooldown_defaults_idem :
      (s : CooldownSpec f)
      → apply_cooldown_defaults f (apply_cooldown_defaults f s) ≡ apply_cooldown_defaults f s
  unfolding apply_cooldown_defaults
  apply_cooldown_defaults_idem s =
      let pick = λ (b : Bool). if b then zero_spec f else filled_spec f s in
      elim (Bool-cases (is_zero_spec f s)) [
        | inl e ↦
            ap (λ b. apply_cooldown_defaults f (pick b)) e ∙ rw zero_is_zero refl ∙ sym (ap pick e)
        | inr e ↦
            ap (λ b. apply_cooldown_defaults f (pick b)) e
            ∙ ap (λ b. if b then zero_spec f else filled_spec f (filled_spec f s))
                (filled_spec-nonzero s)
            ∙ filled_spec_idem s
            ∙ sym (ap pick e)
      ]
