-- ===== src/Examples/Progress.antt =====
-- Two results of one learner for one module: a failure and then a pass.
use elearning_platform.Prelude.{◌≡◌, refl, true, false, [], ◌∷◌, some, contains, if◌then◌else◌}
use elearning_platform.Prelude.Int.{pos}
use elearning_platform.Prelude.Table.{get}
use elearning_platform.Progress.Rows.{
  ProgressKey, ModuleProgress, Result, Progress, progress_key_eq, key_eq, list_by_user_course,
  summarize_course_progress,
}
use elearning_platform.Progress.History.{record_all, IsHistory, record_all-IsHistory}
use elearning_platform.Progress.Summary.{record_all-passed}

abbrev exam : ProgressKey
exam = record { user_id = "ann"; course_slug = "go"; module_index = pos 1 }

abbrev failed : Result
failed = record {
  at = pos 1;
  module_slug = "exam";
  module_type = "quiz";
  score = pos 3;
  max_score = pos 10;
  passed = false;
}

abbrev pass : Result
pass = record failed { at = pos 2; score = pos 8; passed = true }

record_all-IsHistory_example :
    (t' : Progress) × (p : ModuleProgress) × (record_all exam (failed ∷ pass ∷ []) [] ≡ some t')
    × (get progress_key_eq exam t' ≡ some p)
    × IsHistory p (failed ∷ pass ∷ [])
    × ((j : ProgressKey)
        → get progress_key_eq j t' ≡ (if key_eq exam j then some p else get progress_key_eq j []))
unfolding get
record_all-IsHistory_example = record_all-IsHistory exam failed (pass ∷ []) [] refl

record_all-passed_example :
    (t' : Progress) × (record_all exam (failed ∷ pass ∷ []) [] ≡ some t')
    × (contains
          (summarize_course_progress (list_by_user_course "ann" "go" t') []).passed_modules
          "exam"
        ≡ true)
unfolding get
record_all-passed_example = record_all-passed exam failed (pass ∷ []) [] [] refl refl refl
