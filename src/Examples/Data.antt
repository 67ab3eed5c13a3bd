-- ===== src/Examples/Data.antt =====
-- A small course, its prerequisite, its modules and a quiz of four questions, and a learner of it.
use elearning_platform.Prelude.{String, Bool, true, false, List, [], ◌∷◌, none, some, Assoc}
use elearning_platform.Prelude.Int.{pos}
use elearning_platform.Prelude.FixedPoint.{fixed_point}
use elearning_platform.Content.Quiz.{CooldownSpec, Answer, Feedback, Question, Quiz, UserAnswer}
use elearning_platform.Content.Slug.{Unicode, is_char}
use elearning_platform.Content.Module.{CoursePrerequisite, Course, Module, end}
use elearning_platform.Attempts.Rows.{AttemptKey, Attempts, Outage, row}
use elearning_platform.Course.View.{Claims, CourseProgress, Env, LearnerView, not_found}
use elearning_platform.Course.Submission.{ResolvedQuiz}

abbrev pub no_feedback : Feedback
no_feedback = record { wrong = "no"; correct = "yes"; source_refs = [] }

abbrev pub option : String → Bool → Answer
option id correct = record { id = id; text = id; correct = correct }

abbrev pub blank : Question
blank = record {
  id = "";
  type = "";
  difficulty = "medium";
  points = pos 2;
  question = "";
  answers = [];
  correct_answer = none;
  items = [];
  correct_order = [];
  partial_scoring = none;
  feedback = no_feedback;
}

abbrev pub single : Question
single = record blank {
  id = "s";
  type = "single";
  answers = option "a" false ∷ option "b" true ∷ [];
}

abbrev pub multiple : Question
multiple = record blank {
  id = "m";
  type = "multiple";
  points = pos 4;
  answers = option "a" true ∷ option "b" true ∷ option "c" false ∷ [];
  partial_scoring = some (record { enabled = true; allow_negative = false });
}

abbrev pub boolean : Question
boolean = record blank { id = "t"; type = "boolean"; correct_answer = some true }

abbrev pub order : Question
order = record blank { id = "o"; type = "order"; correct_order = "x" ∷ "y" ∷ [] }

abbrev pub questions : List Question
questions = single ∷ multiple ∷ boolean ∷ order ∷ []

abbrev pub linear : CooldownSpec fixed_point
linear = record {
  strategy = "linear";
  base_seconds = pos 30;
  multiplier = fixed_point.of_int (pos 1);
  max_seconds = pos 0;
}

abbrev pub doubling : CooldownSpec fixed_point
doubling = record {
  strategy = "exponential";
  base_seconds = pos 30;
  multiplier = fixed_point.of_int (pos 2);
  max_seconds = pos 100;
}

abbrev pub quiz : Quiz fixed_point
quiz = record {
  id = "quiz";
  title = "Quiz";
  description = "";
  version = "1";
  covers = [];
  passing_score = pos 70;
  cooldown = linear;
  max_attempts_per_question = some (pos 3);
  lock_on_max_attempts = true;
  questions = questions;
}

abbrev pub no_answer : UserAnswer
no_answer = record { single = none; multiple = []; boolean = none; order = [] }

abbrev pub right_answers : Assoc UserAnswer
right_answers =
    ("s", record no_answer { single = some "b" })
    ∷ ("m", record no_answer { multiple = "b" ∷ "a" ∷ [] })
    ∷ ("t", record no_answer { boolean = some true })
    ∷ ("o", record no_answer { order = "x" ∷ "y" ∷ [] })
    ∷ []

-- The single-choice question answered wrongly.
abbrev pub one_wrong : Assoc UserAnswer
one_wrong = ("s", record no_answer { single = some "a" }) ∷ right_answers

-- ASCII letters stand for themselves.
abbrev pub ascii : Unicode
ascii = record { is_letter = λ c. true; is_digit = is_char 48; to_lower = λ c. c }

abbrev pub lesson_module : Module fixed_point
lesson_module = record {
  name = "intro";
  type = "text";
  src = "";
  ref = "";
  path = "";
  lab_url = "";
  inline_content = "Welcome";
  replication = false;
  hidden = false;
  inline = false;
  prerequisites = [];
  questions = [];
  passing_score = pos 0;
  cooldown = linear;
  max_attempts_per_question = none;
  lock_on_max_attempts = false;
  check_provider = "";
  check_type = "";
  check_params = end;
  steps = [];
  skills = [];
}

abbrev pub quiz_module : Module fixed_point
quiz_module = record lesson_module {
  name = "exam";
  type = "quiz";
  prerequisites = "intro" ∷ [];
  questions = questions;
  passing_score = pos 70;
  max_attempts_per_question = some (pos 3);
  lock_on_max_attempts = true;
}

abbrev pub prerequisite : CoursePrerequisite
prerequisite = record { course = "basics"; min_score = pos 5; modules = "start" ∷ [] }

abbrev pub course : Course fixed_point
course = record {
  slug = "go";
  title = "Go";
  description = "";
  category = "";
  difficulty = "easy";
  is_public = true;
  hidden = false;
  prerequisites = prerequisite ∷ [];
  modules = lesson_module ∷ quiz_module ∷ [];
  module_count = pos 2;
  skills = [];
  scope = "";
  badge = none;
  in_person = false;
  sessions = [];
  xp_required = pos 0;
}

abbrev pub progress : CourseProgress
progress = record {
  enrolled = true;
  viewed = "intro" ∷ [];
  modules = [];
  total_score = pos 0;
  passed_modules = [];
  viewed_count = pos 1;
}

abbrev pub claims : Claims
claims = record { subject = "ann"; email = ""; role = "learner"; preferred_username = "ann" }

abbrev pub view : LearnerView fixed_point
view = record {
  course = course;
  modules = lesson_module ∷ quiz_module ∷ [];
  progress = progress;
  claims = claims;
  is_admin = false;
  user_id = "ann";
  slug = "go";
}

-- The learner has 10 points in the prerequisite course and has passed its module.
abbrev pub env : Env fixed_point
env = record {
  unicode = ascii;
  load_course = λ s. not_found;
  module_index = λ m. none;
  progress_overview = λ s u. none;
  course_summaries = λ u s. some (
      (
        "basics",
        record { total_score = pos 10; passed_modules = "start" ∷ []; viewed_count = pos 0 },
      )
      ∷ []);
  skill_totals = λ s. none;
  fetch_quiz = λ m. none;
}

abbrev pub resolved : ResolvedQuiz fixed_point
resolved = record { questions = questions; passing_score = pos 70; cooldown = linear }

abbrev pub running : Outage
running = record { load = false; delete_rows = false; increment = false; write = false }

abbrev pub key : AttemptKey
key = record { username = "ann"; course_slug = "go"; module_index = pos 1 }

-- The learner has failed the single-choice question once.
abbrev pub attempts : Attempts
attempts = (row key "s", record { attempts = 1; cooldown_until = none }) ∷ []
