-- ===== src/Reclaimer/Process/Trace.antt =====
-- When a query of the reclaimer is warranted by what has happened before, by the documentation of the
-- levels in src/myfs/reclaimer.h.
use myfs.Base.{
  ℕ, suc, ◌+◌, ◌*◌, ◌≤◌, ◌≡◌, Bool, true, false, Option, none, some, List, [], ◌∷◌, leb,
}
use myfs.Reclaimer.{Level, off, optimistic, aggressive, deletion}
use myfs.Reclaimer.Process.{Event, notified, stopped, checked, sent, answered}

-- The time of the latest notification since the last query that succeeded, and whether one was of a
-- deletion.
abbrev pub latest : List Event → Option ℕ
latest [] = none
latest (notified action now ∷ es) = some now
latest (answered true now ∷ es) = none
latest (_ ∷ es) = latest es

abbrev pub deleted : List Event → Bool
deleted [] = false
deleted (notified deletion now ∷ es) = true
deleted (answered true now ∷ es) = false
deleted (_ ∷ es) = deleted es

abbrev pub half_hour_since : ℕ → Option ℕ → Bool
half_hour_since now none = false
half_hour_since now (some at) = leb (at + 30 * 60) now

abbrev pub is_due_after : Level → ℕ → List Event → Bool
is_due_after off now es = false
is_due_after optimistic now es = half_hour_since now (latest es)
is_due_after aggressive now es = deleted es

-- The time from which a query may be tried.
abbrev pub retry_from : List Event → ℕ
retry_from [] = 0
retry_from (answered true now ∷ es) = 0
retry_from (answered false now ∷ es) = now + 30
retry_from (_ ∷ es) = retry_from es

-- The thread has checked that a query is due, and has neither sent one since nor an answer.
abbrev pub was_checked : List Event → Bool
was_checked [] = false
was_checked (checked now ∷ es) = true
was_checked (sent now ∷ es) = false
was_checked (answered ok now ∷ es) = false
was_checked (_ ∷ es) = was_checked es

-- Every check has found a query due, and every query has been checked and not been tried too soon.
abbrev pub IsWarranted : Level → List Event → Type 0
IsWarranted level [] = Unit
IsWarranted level (checked now ∷ es) = (is_due_after level now es ≡ true) × IsWarranted level es
IsWarranted level (sent now ∷ es) =
    (was_checked es ≡ true) × (retry_from es ≤ now) × IsWarranted level es
IsWarranted level (_ ∷ es) = IsWarranted level es

abbrev pub was_stopped : List Event → Bool
was_stopped [] = false
was_stopped (stopped ∷ es) = true
was_stopped (_ ∷ es) = was_stopped es

-- The queries since the stop.
abbrev pub sent_since : List Event → ℕ
sent_since [] = 0
sent_since (stopped ∷ es) = 0
sent_since (sent now ∷ es) = suc (sent_since es)
sent_since (_ ∷ es) = sent_since es
