-- ===== src/Tests/Times.antt =====
-- The remaining seconds of an attempt whose module deadline has passed and whose overall deadline
-- has not.
use mindengage_lms.Prelude.{pos, ◌≡◌, arith}
use mindengage_lms.Exam.Attempts.{remaining}
use mindengage_lms.Exam.Attempts.Remaining.{remaining_lem}

remaining_lem_example : remaining (pos 100) (pos 300) (pos 150) ≡ pos 150
remaining_lem_example = remaining_lem 100 300 150 (omega arith) (omega arith) (omega arith)
