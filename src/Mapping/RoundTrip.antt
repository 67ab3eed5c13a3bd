-- ===== src/Mapping/RoundTrip.antt =====
-- A module that is stored, read and stored again gives the same row.
use elearning_platform.Prelude.{
  ℕ, suc, String, Bool, true, false, List, [], ◌∷◌, Option, none, some, ◌≡◌, refl, sym, ap, ◌∙◌,
  arith, if◌then◌else◌, str_eq,
}
use elearning_platform.Prelude.Float64.{Float64, Float64Laws}
use elearning_platform.Content.Quiz.{CooldownSpec, Question}
use elearning_platform.Content.Slug.{Unicode, slugify_module_name}
use elearning_platform.Content.Module.{Fields, end, field, Module}
use elearning_platform.Mapping.{
  Names, ModuleRow, or_text, with_documents, from_documents, plain_row, plain_module, module_to_row,
  module_from_model, defaulted_questions, apply_cooldown_defaults,
}
use elearning_platform.Mapping.Documents.{
  Codec, Codecs, Jsonb, present, marshal_jsonb, unmarshal_jsonb, is_empty, is_end,
}
use elearning_platform.Mapping.Defaults.{
  or_text_idem, defaulted_questions_idem, apply_cooldown_defaults_idem,
}

-- json.Unmarshal reads what json.Marshal wrote, which is never the empty text.
pub record IsLawful {A : Type 0} (c : Codec A) : Type 0 where
  pub written : (x : A) (d : String) → c.marshal x ≡ some d → str_eq d "" ≡ false
  pub read : (x : A) (d : String) → c.marshal x ≡ some d → c.unmarshal d ≡ some x

-- The same, for a type with maps, whose keys json.Marshal sorts: what is read back is written as
-- before.
pub record IsStable {A : Type 0} (c : Codec A) (empty : A → Bool) : Type 0 where
  pub read_back : A → A
  pub written : (x : A) (d : String) → c.marshal x ≡ some d → str_eq d "" ≡ false
  pub read : (x : A) (d : String) → c.marshal x ≡ some d → c.unmarshal d ≡ some (read_back x)
  pub marshal_again : (x : A) → c.marshal (read_back x) ≡ c.marshal x
  pub empty_again : (x : A) → empty (read_back x) ≡ empty x

pub record CodecsLaws (codecs : Codecs) : Type 0 where
  pub params : IsStable codecs.params is_end
  pub steps : IsStable codecs.steps is_empty
  pub questions : IsLawful codecs.questions

unmarshal-present :
    {A : Type 0} (c : Codec A) (zero x : A) (o : Option String) (j : Jsonb)
    → ((d : String) → o ≡ some d → (str_eq d "" ≡ false) × (c.unmarshal d ≡ some x))
    → present c o ≡ some j
    → unmarshal_jsonb c zero j ≡ some x
unmarshal-present c zero x none j back h = cc h
unmarshal-present c zero x (some d) j back h =
    let column : some d ≡ j = ground arith in
    let (full, read) = back d refl in
    ap (unmarshal_jsonb c zero) (sym column)
    ∙ ap (λ b. if b then some zero else c.unmarshal d) full
    ∙ read

-- `y` is what is read of the document of `x`.
unmarshal-marshal :
    {A : Type 0} (c : Codec A) (zero x y : A) (empty : Bool) (j : Jsonb)
    → ((d : String) → c.marshal x ≡ some d → (str_eq d "" ≡ false) × (c.unmarshal d ≡ some y))
    → (empty ≡ true → y ≡ zero)
    → marshal_jsonb c empty x ≡ some j
    → unmarshal_jsonb c zero j ≡ some y
unmarshal-marshal c zero x y true j law e h =
    let null : none ≡ j = ground arith in
    ap (unmarshal_jsonb c zero) (sym null) ∙ ap some (sym (e refl))
unmarshal-marshal c zero x y false j law e h = unmarshal-present c zero y (c.marshal x) j law h

-- Writing what was read gives the column again.
marshal_jsonb-read_back :
    {A : Type 0} (c : Codec A) (empty : A → Bool) (law : IsStable c empty) (x : A)
    → marshal_jsonb c (empty (law.read_back x)) (law.read_back x) ≡ marshal_jsonb c (empty x) x
marshal_jsonb-read_back c empty law x =
    ap (λ b. marshal_jsonb c b (law.read_back x)) (law.empty_again x)
    ∙ ap (λ o. if empty x then some none else present c o) (law.marshal_again x)

empty_list : {A : Type 0} (xs : List A) → is_empty xs ≡ true → xs ≡ []
empty_list [] h = refl
empty_list (x ∷ xs) h = cc h

empty_fields : (fs : Fields) → is_end fs ≡ true → fs ≡ end
empty_fields end h = refl
empty_fields (field k v fs) h = cc h

module _ {f : Float64} where
  abbrev from_some : ModuleRow f → Option (ModuleRow f) → ModuleRow f
  from_some row none = row
  from_some row (some r) = r

  pub shape-with_documents :
      (row out : ModuleRow f) (a b c : Option Jsonb)
      → with_documents row a b c ≡ some out
      → (p : Jsonb) × (s : Jsonb) × (q : Jsonb) × (a ≡ some p)
        × (b ≡ some s)
        × (c ≡ some q)
        × (record row { check_params = p; steps = s; questions = q } ≡ out)
  shape-with_documents row out none b c h = cc h
  shape-with_documents row out (some p) none c h = cc h
  shape-with_documents row out (some p) (some s) none h = cc h
  shape-with_documents row out (some p) (some s) (some q) h =
      (p, s, q, refl, refl, refl, ap (from_some row) h)

module _ (f : Float64) (unicode : Unicode) (names : Names) (codecs : Codecs) where
  module _ (laws : CodecsLaws codecs) where
    -- The module with its defaults, its documents as they are read.
    abbrev pub stored_module : ℕ → Module f → Module f
    stored_module position m = record m {
      name = or_text (names.module_name (suc position)) m.name;
      type = or_text "text" m.type;
      cooldown = apply_cooldown_defaults f m.cooldown;
      questions = defaulted_questions names 0 m.questions;
      check_params = laws.params.read_back m.check_params;
      steps = laws.steps.read_back m.steps;
    }

  module _ (float_laws : Float64Laws f) (laws : CodecsLaws codecs) where
    plain_row_again :
        (course : String) (position : ℕ) (m : Module f)
        → plain_row f unicode names codecs course position (stored_module laws position m)
          ≡ plain_row f unicode names codecs course position m
    unfolding plain_row plain_module
    plain_row_again course position m =
        let name = names.module_name (suc position) in
        let shaped = λ (n : String) (t : String) (c : CooldownSpec f).
          record (plain_row f unicode names codecs course position m) {
            slug = slugify_module_name unicode n;
            name = n;
            type = t;
            cooldown = c;
          } in
        let t = or_text "text" m.type in
        let c = apply_cooldown_defaults f m.cooldown in
        ap (λ n. shaped n (or_text "text" t) (apply_cooldown_defaults f c))
          (or_text_idem name m.name)
        ∙ ap (λ x. shaped (or_text name m.name) x (apply_cooldown_defaults f c))
            (or_text_idem "text" m.type)
        ∙ ap (λ x. shaped (or_text name m.name) t x)
            (apply_cooldown_defaults_idem f float_laws m.cooldown)

    -- A module that is stored and read is the module with its defaults, and storing what was read
    -- gives the same row, if what encoding/json reads of its own documents is written as before.
    pub module_from_model-module_to_row :
        (course : String) (position : ℕ) (m : Module f) (row : ModuleRow f)
        → module_to_row f unicode names codecs course position m ≡ some row
        → (module_from_model f unicode names codecs row ≡ some (stored_module laws position m))
          × (module_to_row f unicode names codecs course position (stored_module laws position m)
              ≡ some row)
    unfolding module_to_row module_from_model
    module_from_model-module_to_row course position m row h =
        let qs = defaulted_questions names 0 m.questions in
        let (p, s, q, hp, hs, hq, shape) =
          shape-with_documents (plain_row f unicode names codecs course position m) row
            (marshal_jsonb codecs.params (is_end m.check_params) m.check_params)
            (marshal_jsonb codecs.steps (is_empty m.steps) m.steps)
            (marshal_jsonb codecs.questions (is_empty qs) qs) h in
        let base = stored_module laws position m in
        let params = laws.params.read_back m.check_params in
        let steps = laws.steps.read_back m.steps in
        let back_p =
          unmarshal-marshal codecs.params end m.check_params params (is_end m.check_params) p
            (λ d e. (laws.params.written m.check_params d e, laws.params.read m.check_params d e))
            (λ e. empty_fields params (laws.params.empty_again m.check_params ∙ e)) hp in
        let back_s =
          unmarshal-marshal codecs.steps [] m.steps steps (is_empty m.steps) s
            (λ d e. (laws.steps.written m.steps d e, laws.steps.read m.steps d e))
            (λ e. empty_list steps (laws.steps.empty_again m.steps ∙ e)) hs in
        let back_q =
          unmarshal-marshal codecs.questions [] qs qs (is_empty qs) q
            (λ d e. (laws.questions.written qs d e, laws.questions.read qs d e)) (empty_list qs)
            hq in
        let questions = λ (x : List Question). marshal_jsonb codecs.questions (is_empty x) x in
        let column_p = marshal_jsonb codecs.params (is_end params) params in
        let column_s = marshal_jsonb codecs.steps (is_empty steps) steps in
        let row_again = plain_row f unicode names codecs course position base in
        (
          sym (ap (module_from_model f unicode names codecs) shape)
              ∙ ap
                  (λ x.
                    from_documents base x (unmarshal_jsonb codecs.steps [] s)
                      (unmarshal_jsonb codecs.questions [] q))
                  back_p
              ∙ ap
                  (λ x. from_documents base (some params) x (unmarshal_jsonb codecs.questions [] q))
                  back_s
              ∙ ap (from_documents base (some params) (some steps)) back_q,
          ap (λ x. with_documents row_again column_p column_s (questions x))
                (defaulted_questions_idem names 0 m.questions)
              ∙ ap (λ x. with_documents row_again x column_s (questions qs))
                  (marshal_jsonb-read_back codecs.params is_end laws.params m.check_params)
              ∙ ap
                  (λ x.
                    with_documents row_again
                      (marshal_jsonb codecs.params (is_end m.check_params) m.check_params) x
                      (questions qs))
                  (marshal_jsonb-read_back codecs.steps is_empty laws.steps m.steps)
              ∙ ap
                  (λ x.
                    with_documents x
                      (marshal_jsonb codecs.params (is_end m.check_params) m.check_params)
                      (marshal_jsonb codecs.steps (is_empty m.steps) m.steps) (questions qs))
                  (plain_row_again course position m)
              ∙ h,
        )
