-- ===== src/Reclaimer/Process.antt =====
-- `reclaimer_process` of src/myfs/reclaimer.c as a thread among others: its steps, from one access to
-- what it shares to the next, and between them the notifications of the FUSE callbacks, the stop by
-- the main thread, and the time that passes.
pub mod Trace
pub mod Memory
pub mod Warrant
pub mod Stop
use myfs.Base.{
  ℕ, ◌+◌, ◌<◌, ◌≡◌, Bool, true, false, Option, none, some, List, [], ◌∷◌, ltb, if◌then◌else◌,
}
use myfs.Reclaimer.{Level, Action, Reclaimer, should_run, notify, end_round}

-- Where the thread stands in its loop.
pub data Phase : Type 0 where
  -- before the test of `running`
  top : Phase
  -- before the call of reclaimer_should_run
  entered : Phase
  -- after it has returned true
  due : Phase
  -- in the query
  sending : Phase
  ended : Phase

pub record Process : Type 0 where
  pub shared : Reclaimer
  pub running : Bool
  pub next_try : ℕ
  pub phase : Phase
  -- what time(NULL) returns
  pub clock : ℕ

pub data Event : Type 0 where
  notified : Action → ℕ → Event
  stopped : Event
  -- reclaimer_should_run has returned true
  checked : ℕ → Event
  sent : ℕ → Event
  answered : Bool → ℕ → Event

-- if (next_try > 0) { if (next_try > time(NULL)) ... }
abbrev pub waits : ℕ → ℕ → Bool
waits now next_try = if ltb 0 next_try then ltb now next_try else false

pub data Step (m : Process) : Option Event → Process → Type 0 where
  pass : (n : ℕ) → Step m none (record m { clock = m.clock + n })
  callback :
      (action : Action)
      → Step m
          (some (notified action m.clock))
          (record m { shared = notify action m.clock m.shared })
  stop : m.running ≡ true → Step m (some stopped) (record m { running = false })
  enter : m.phase ≡ top → m.running ≡ true → Step m none (record m { phase = entered })
  leave : m.phase ≡ top → m.running ≡ false → Step m none (record m { phase = ended })
  sleep :
      m.phase ≡ entered
      → should_run m.clock m.shared ≡ false
      → Step m none (record m { phase = top })
  check :
      m.phase ≡ entered
      → should_run m.clock m.shared ≡ true
      → Step m (some (checked m.clock)) (record m { phase = due })
  wait : m.phase ≡ due → waits m.clock m.next_try ≡ true → Step m none (record m { phase = top })
  send :
      m.phase ≡ due
      → waits m.clock m.next_try ≡ false
      → Step m (some (sent m.clock)) (record m { phase = sending; next_try = 0 })
  answer :
      (ok : Bool)
      → m.phase ≡ sending
      → Step m (some (answered ok m.clock)) (record m {
        phase = top;
        next_try = (end_round ok m.clock m.shared).0;
        shared = (end_round ok m.clock m.shared).1;
      })

abbrev pub and_then : Option Event → List Event → List Event
and_then none es = es
and_then (some e) es = e ∷ es

-- What has happened on the way, the latest first.
pub data Run (m : Process) : List Event → Process → Type 0 where
  here : Run m [] m
  next :
      {es : List Event} {e : Option Event} {m1 m2 : Process}
      → Run m es m1
      → Step m1 e m2
      → Run m (and_then e es) m2

-- The thread as reclaimer_start leaves it, at a time.
abbrev pub started : Level → ℕ → Process
started level now = record {
  shared = record { level = level; last_action = 0; run = false };
  running = true;
  next_try = 0;
  phase = top;
  clock = now;
}
