-- ===== src/Reclaimer/Rounds.antt =====
-- What the rounds of `reclaimer_process` of src/myfs/reclaimer.c do, from a notification to a query.
use myfs.Base.{ℕ, ◌+◌, ◌*◌, ◌<◌, ◌≡◌, refl, Bool, true, false, ltb, leb, if◌then◌else◌, arith}
use myfs.Reclaimer.{
  Level, off, optimistic, aggressive, Action, general, deletion, Reclaimer, should_run, reset,
  notify, idle, waiting, send, begin_round, end_round,
}

-- When a notification makes a query due, by the documentation of the levels.
unfoldable pub is_due : Level → Action → ℕ → ℕ → Bool → Bool
is_due off action at now before = false
is_due optimistic action at now before = leb (at + 30 * 60) now
is_due aggressive deletion at now before = true
is_due aggressive general at now before = before

-- After a notification at a time that is not 0, a query is due from half an hour on when the level
-- is optimistic, at once after a deletion when it is aggressive, where another action changes
-- nothing, and never when it is off.
pub should_run-notify :
    (action : Action) (at now : ℕ) (r : Reclaimer)
    → 0 < at
    → should_run now (notify action at r) ≡ is_due r.level action at now r.run
unfolding should_run notify is_due
should_run-notify action at now r pos = by_level r.level r.last_action r.run action
  where
    by_level :
        (level : Level) (last : ℕ) (run : Bool) (action : Action)
        → should_run now
            (notify action at (record { level = level; last_action = last; run = run }))
          ≡ is_due level action at now run
    by_level off last run action = refl
    by_level optimistic last run action = ground arith
    by_level aggressive last run general = refl
    by_level aggressive last run deletion = refl

-- Once a query has succeeded every round is idle. Once it has failed at `now`, where it was due, no
-- query is sent in the 30 seconds that follow, and one is sent as soon as they have passed.
pub begin_round-end_round :
    (now later : ℕ) (r : Reclaimer)
    → let (next, r') = end_round true now r in
      let (again, kept) = end_round false now r in
      (begin_round later next r' ≡ idle)
      × (begin_round later again kept
          ≡ (if should_run later r then (if ltb later (now + 30) then waiting else send) else idle))
unfolding begin_round end_round reset should_run
begin_round-end_round now later r = (settled r.level r.last_action r.run, ground arith)
  where
    settled :
        (level : Level) (last : ℕ) (run : Bool)
        → begin_round later 0 (reset (record { level = level; last_action = last; run = run }))
          ≡ idle
    settled off last run = refl
    settled optimistic last run = refl
    settled aggressive last run = refl
