-- ===== src/Exam/Attempts/Remaining.antt =====
-- internal/exam/store_sql.go: the remaining seconds that GetAttempt reports.
use mindengage_lms.Prelude.{ℕ, ◌-◌, ◌^◌, ◌<◌, pos, sub64-pos, ltb, ◌==◌, ◌≡◌, arith, if◌then◌else◌}
use mindengage_lms.Exam.Attempts.{seconds_left, remaining}

-- The seconds up to a deadline, 0 where it has passed.
abbrev pub until : ℕ → ℕ → ℕ
until deadline now = deadline - now

-- The lesser of two positive numbers, or the one that is positive.
abbrev pub nearest : ℕ → ℕ → ℕ
nearest a b = if b == 0 then a else if a == 0 then b else if ltb b a then b else a

-- What GetAttempt reports as remaining is the time up to the nearer of the deadlines that have not
-- passed: a deadline of the module that has passed, or that is not set, does not count, and the
-- report is 0 only where neither deadline lies ahead. Times are not negative and below 2 ^ 63.
pub remaining_lem :
    (module_deadline overall_deadline now : ℕ)
    → module_deadline < 2 ^ 63
    → overall_deadline < 2 ^ 63
    → now < 2 ^ 63
    → remaining (pos module_deadline) (pos overall_deadline) (pos now)
      ≡ pos (nearest (until module_deadline now) (until overall_deadline now))
unfolding remaining seconds_left
remaining_lem m o n hm ho hn = ground (arith, sub64-pos m n hm hn, sub64-pos o n ho hn)
