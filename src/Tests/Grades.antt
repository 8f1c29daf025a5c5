-- ===== src/Tests/Grades.antt =====
-- internal/exam/store_sql.go: manual grades of a submitted attempt.
use mindengage_lms.Prelude.{ℕ, [], ◌∷◌, GoMap}
use mindengage_lms.Exam.ManualGrade.{ManualGradeInput}
use mindengage_lms.Tests.Setup.{thousandths}

abbrev half_point : ManualGradeInput ℕ
half_point = record { manual_points = 500; comment = "good start" }

abbrev grades : GoMap (ManualGradeInput ℕ)
grades = ("q1", half_point) ∷ []
