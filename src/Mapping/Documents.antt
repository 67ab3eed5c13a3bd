-- ===== src/Mapping/Documents.antt =====
-- The jsonb columns: MarshalJSONB and UnmarshalJSONB of course-service/internal/models/jsonb.go.
-- encoding/json is a parameter.
use elearning_platform.Prelude.{
  String, Bool, true, false, List, [], ◌∷◌, Option, none, some, if◌then◌else◌, str_eq,
}
use elearning_platform.Content.Quiz.{Question}
use elearning_platform.Content.Module.{Fields, end, CheckStep}

-- json.Marshal and json.Unmarshal at one type; none is an error.
pub record Codec (A : Type 0) : Type 0 where
  pub marshal : A → Option String
  pub unmarshal : String → Option A

-- A jsonb column: none is NULL.
abbrev pub Jsonb : Type 0
Jsonb = Option String

module _ {A : Type 0} (c : Codec A) where
  abbrev pub present : Option String → Option Jsonb
  present none = none
  present (some d) = some (some d)

  abbrev pub marshal_jsonb : Bool → A → Option Jsonb
  marshal_jsonb empty x = if empty then some none else present (c.marshal x)

  -- `zero` is the destination's value.
  abbrev pub unmarshal_jsonb : A → Jsonb → Option A
  unmarshal_jsonb zero none = some zero
  unmarshal_jsonb zero (some d) = if str_eq d "" then some zero else c.unmarshal d

abbrev pub is_empty {ℓ} : {A : Type ℓ} → List A → Bool
is_empty [] = true
is_empty (x ∷ xs) = false

abbrev pub is_end : Fields → Bool
is_end end = true
is_end fs = false

-- The three documents' codecs.
pub record Codecs : Type 0 where
  pub params : Codec Fields
  pub steps : Codec (List CheckStep)
  pub questions : Codec (List Question)
