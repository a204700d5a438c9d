-- ===== src/Reclaimer.antt =====
-- src/myfs/reclaimer.c: when the disk space of deleted rows is reclaimed. Time is what `time(NULL)`
-- returns at a call.
pub mod Rounds
pub mod Thread
pub mod Process
use myfs.Base.{ℕ, ◌+◌, ◌-◌, ◌*◌, Bool, true, false, ltb, leb, if◌then◌else◌}

-- `reclaimer_level_t` and `reclaimer_action_t` of src/myfs/reclaimer.h
pub data Level : Type 0 where
  off optimistic aggressive : Level

pub data Action : Type 0 where
  general deletion : Action

-- What the FUSE callbacks and the thread share.
pub record Reclaimer : Type 0 where
  pub level : Level
  pub last_action : ℕ
  pub run : Bool

-- RECLAIMER_OPTIMISTIC_WAIT_TIME
abbrev pub optimistic_wait_time : ℕ
optimistic_wait_time = 60 * 30

-- RECLAIMER_QUERY_RETRY_TIME
abbrev pub query_retry_time : ℕ
query_retry_time = 30

abbrev should_run_at : Level → ℕ → Reclaimer → Bool
should_run_at off now r = false
should_run_at optimistic now r =
    if ltb 0 r.last_action then leb (r.last_action + optimistic_wait_time) now else false
should_run_at aggressive now r = r.run

unfoldable pub should_run : ℕ → Reclaimer → Bool
should_run now r = should_run_at r.level now r

abbrev reset_at : Level → Reclaimer → Reclaimer
reset_at off r = r
reset_at optimistic r = record r { last_action = 0 }
reset_at aggressive r = record r { run = false }

unfoldable pub reset : Reclaimer → Reclaimer
reset r = reset_at r.level r

abbrev notify_at : Level → Action → ℕ → Reclaimer → Reclaimer
notify_at off action now r = r
notify_at optimistic action now r = record r { last_action = now }
notify_at aggressive deletion now r = record r { run = true }
notify_at aggressive general now r = r

unfoldable pub notify : Action → ℕ → Reclaimer → Reclaimer
notify action now r = notify_at r.level action now r

-- One round of the loop of `reclaimer_process`, up to the query and from it on.
pub data Round : Type 0 where
  -- it slept: there is nothing to do, or a failed query is not to be tried yet
  idle : Round
  waiting : Round
  -- the query is sent
  send : Round

unfoldable pub begin_round : ℕ → ℕ → Reclaimer → Round
begin_round now next_try r =
    if should_run now r
    then (if ltb 0 next_try then (if ltb now next_try then waiting else send) else send)
    else idle

-- After the query: the next time to try, and what the thread shares.
unfoldable pub end_round : Bool → ℕ → Reclaimer → ℕ × Reclaimer
unfolding reset
end_round true now r = (0, reset r)
end_round false now r = (now + query_retry_time, r)
