-- ===== src/Course/Listing.antt =====
-- The module list: `ListModules` of course-service/internal/handlers/modules.go, with the locks that
-- it computes and the fields that it hides.
pub mod Locks
use elearning_platform.Prelude.{
  ℕ, suc, ◌+◌, String, Bool, true, false, not, ◌&&◌, ◌||◌, List, [], ◌∷◌, Option, none, some,
  if◌then◌else◌, str_eq, contains, insert, length, any,
}
use elearning_platform.Prelude.Int.{ℤ, pos}
use elearning_platform.Prelude.Float64.{Float64}
use elearning_platform.Content.Slug.{Unicode}
use elearning_platform.Content.Module.{
  Module, CheckStep, Fields, end, slug, module_type_lab, module_type_quiz, has_questions,
  has_git_content,
}
use elearning_platform.Course.View.{
  Post, auto_enroll, Claims, ModuleProgressData, CourseProgress, Env, LearnerView, Reply, ok, error,
  module_at, progress_at,
}
use elearning_platform.Course.PublicQuiz.{PublicQuestion}
use elearning_platform.Course.Access.{learner_view}

-- The fields of `moduleResponse` that a list entry fills; the others stay empty there.
pub record ModuleResponse : Type 0 where
  pub index : ℕ
  pub name : String
  pub slug : String
  pub type : String
  pub viewed : Bool
  pub hidden : Bool
  pub locked : Bool
  pub prerequisites : List String
  pub best_score : ℤ
  pub max_score : ℤ
  pub passed : Bool
  pub attempts : ℤ
  pub question_count : ℕ
  pub inline : Bool
  pub has_check : Bool
  pub lab_url : String
  pub check_provider : String
  pub skills : List String
  pub src : String
  pub ref : String
  pub path : String

unfoldable pub is_locked : List String → List String → Bool
is_locked prereqs done = any (λ s. not (contains done s)) prereqs

abbrev pub no_progress : ModuleProgressData
no_progress = record { best_score = pos 0; max_score = pos 0; passed = false; attempts = pos 0 }

abbrev progress_or_zero : Option ModuleProgressData → ModuleProgressData
progress_or_zero none = no_progress
progress_or_zero (some p) = p

module _ {f : Float64} (u : Unicode) where
  -- Slugs of the modules that are passed, added to the viewed ones. An index out of range is ignored.
  abbrev add_passed : List (Module f) → List (ℤ × ModuleProgressData) → List String → List String
  add_passed modules [] done = done
  add_passed modules ((idx, p) ∷ rest) done =
      add_passed modules rest (elim (module_at modules idx) [
        | none ↦ done
        | some m ↦ if p.passed then insert (slug u m) done else done
      ])

  unfoldable pub completed_slugs :
      List (Module f) → List String → List (ℤ × ModuleProgressData) → List String
  unfolding module_at
  completed_slugs modules viewed progress = add_passed modules progress viewed

  -- The source location goes to admins, and to everyone for a lab that is not locked.
  unfoldable pub build_module_list_entry :
      Module f → ℕ → Bool → Bool → List String → List (ℤ × ModuleProgressData) → ModuleResponse
  build_module_list_entry m idx admin locked viewed progress =
      let p = progress_or_zero (progress_at progress (pos idx)) in
      let is_lab = str_eq m.type module_type_lab in
      let open_lab = is_lab && not locked in
      let is_local = str_eq m.check_provider "local" in
      record {
        index = idx;
        name = m.name;
        slug = slug u m;
        type = m.type;
        viewed = contains viewed (slug u m);
        hidden = m.hidden;
        locked = locked;
        prerequisites = m.prerequisites;
        best_score = p.best_score;
        max_score = p.max_score;
        passed = p.passed;
        attempts = p.attempts;
        question_count =
            if str_eq m.type module_type_quiz && has_questions m then length m.questions else 0;
        inline = m.inline;
        has_check = is_lab && has_git_content m || is_local;
        lab_url = if open_lab then m.lab_url else "";
        check_provider = if is_local then m.check_provider else "";
        skills = m.skills;
        src = if admin || open_lab then m.src else "";
        ref = if admin || open_lab then m.ref else "";
        path = if admin || open_lab then m.path else "";
      }

  -- The loop of ListModules from index `idx`: `prev_done` says whether the last module that is not
  -- inline is done.
  unfoldable pub list_entries :
      Bool → List String → CourseProgress → ℕ → Bool → List (Module f) → List ModuleResponse
  unfolding build_module_list_entry is_locked
  list_entries admin done progress idx prev_done [] = []
  list_entries admin done progress idx prev_done (m ∷ rest) =
      let locked = not admin && (is_locked m.prerequisites done || not m.inline && not prev_done) in
      build_module_list_entry m idx admin locked progress.viewed progress.modules
      ∷ list_entries admin done progress (suc idx)
          (if m.inline then prev_done else contains done (slug u m)) rest

module _ {f : Float64} (env : Env f) where
  abbrev pub entries_of : LearnerView f → List ModuleResponse
  entries_of view =
      list_entries env.unicode view.is_admin
        (completed_slugs env.unicode view.modules view.progress.viewed view.progress.modules)
        view.progress 0 true view.modules

  abbrev reply_entries : Reply (LearnerView f) × List Post → Reply (List ModuleResponse) × List Post
  reply_entries (ok view, posts) = (ok (entries_of view), posts)
  reply_entries (error status message, posts) = (error status message, posts)

  unfoldable pub list_modules : Option Claims → String → Reply (List ModuleResponse) × List Post
  unfolding list_entries completed_slugs
  list_modules claims slug =
      reply_entries (learner_view env claims slug "Enroll in this course to access it")
