-- ===== src/Reclaimer/Process/Warrant.antt =====
-- No query of the reclaimer without a warrant, however the threads interleave.
use mathlib.Core.Path.{subst}
use myfs.Base.{ℕ, ◌≤◌, ◌<◌, ◌≡◌, refl, sym, ◌∙◌, ◌⊎◌, Bool, true, false, Option, List, arith}
use myfs.Reclaimer.{Level}
use myfs.Reclaimer.Process.{
  Phase, top, entered, due, sending, ended, Process, Event, waits, Step, pass, callback, stop,
  enter, leave, sleep, check, wait, send, answer, and_then, Run, here, next, started,
}
use myfs.Reclaimer.Process.Trace.{retry_from, was_checked, IsWarranted, was_stopped, sent_since}
use myfs.Reclaimer.Process.Stop.{Run-sent_since}
use myfs.Reclaimer.Process.Memory.{
  started-Remembers, end_round-retry_from, Remembers, Remembers-due, notify-IsAfter,
  end_round-IsAfter,
}

-- Before a query the thread knows the time to try it from, and after a check it has checked.
abbrev Knows : Phase → ℕ → ℕ → Type 0
Knows sending k from = Unit
Knows _ k from = k ≡ from

abbrev Checked : Phase → Bool → Type 0
Checked due b = b ≡ true
Checked _ b = Unit

-- What holds at every moment of a run at a level.
record Holds (level : Level) (es : List Event) (m : Process) : Type 0 where
  same_level : m.shared.level ≡ level
  time : 0 < m.clock
  memory : Remembers m.shared es
  retry : Knows m.phase m.next_try (retry_from es)
  looked : Checked m.phase (was_checked es)
  warranted : IsWarranted level es

-- In a phase that is known.
module _ (level : Level) (es : List Event) (m : Process) (h : Holds level es m) where
  known : (p : Phase) → m.phase ≡ p → Knows p m.next_try (retry_from es)
  known p e = subst (λ q. Knows q m.next_try (retry_from es)) e h.retry

  moved :
      (p : Phase)
      → Knows p m.next_try (retry_from es)
      → Checked p (was_checked es)
      → Holds level es (record m { phase = p })
  moved p k ch = record {
    same_level = h.same_level;
    time = h.time;
    memory = h.memory;
    retry = k;
    looked = ch;
    warranted = h.warranted;
  }

waits-false : (now k : ℕ) → waits now k ≡ false → k ≤ now
waits-false now k h = ground arith

Step-Holds :
    {e : Option Event} (level : Level) (es : List Event) (m : Process) {m1 : Process}
    → Step m e m1
    → Holds level es m
    → Holds level (and_then e es) m1
Step-Holds level es m (pass n) h = record {
  same_level = h.same_level;
  time = omega (arith, h.time);
  memory = h.memory;
  retry = h.retry;
  looked = h.looked;
  warranted = h.warranted;
}
Step-Holds level es m (callback action) h =
    let p = notify-IsAfter action m.clock m.shared es h.time h.memory in
    record {
      same_level = p.0 ∙ h.same_level;
      time = h.time;
      memory = p.1;
      retry = h.retry;
      looked = h.looked;
      warranted = h.warranted;
    }
Step-Holds level es m (stop on) h = record {
  same_level = h.same_level;
  time = h.time;
  memory = h.memory;
  retry = h.retry;
  looked = h.looked;
  warranted = h.warranted;
}
Step-Holds level es m (enter at on) h = moved level es m h entered (known level es m h top at) tt
Step-Holds level es m (leave at out) h = moved level es m h ended (known level es m h top at) tt
Step-Holds level es m (sleep at idle) h = moved level es m h top (known level es m h entered at) tt
Step-Holds level es m (wait at more) h = moved level es m h top (known level es m h due at) tt
Step-Holds level es m (check at go) h = record {
  same_level = h.same_level;
  time = h.time;
  memory = h.memory;
  retry = known level es m h entered at;
  looked = refl;
  warranted =
      (rw (← h.same_level) (sym (Remembers-due m.shared m.clock es h.memory) ∙ go), h.warranted);
}
Step-Holds level es m (send at now) h = record {
  same_level = h.same_level;
  time = h.time;
  memory = h.memory;
  retry = tt;
  looked = tt;
  warranted = (
    subst (λ q. Checked q (was_checked es)) at h.looked,
    omega (arith, waits-false m.clock m.next_try now, known level es m h due at),
    h.warranted,
  );
}
Step-Holds level es m (answer ok at) h =
    let p = end_round-IsAfter ok m.clock m.shared es h.memory in
    record {
      same_level = p.0 ∙ h.same_level;
      time = h.time;
      memory = p.1;
      retry = end_round-retry_from ok m.clock m.shared es;
      looked = tt;
      warranted = h.warranted;
    }

-- However the steps of the thread, the callbacks and the main thread interleave from a time that is
-- not 0 on, and whatever the queries answer: each check that lets a query through has found one due,
-- which it is half an hour after the latest notification since the last query that succeeded when
-- the level is optimistic, after a deletion since then when it is aggressive, and never when it is
-- off; each query comes after such a check, and no sooner than 30 seconds after the last answer,
-- where that was a failure; and once the reclaimer has been stopped at most one more is sent.
pub Run-IsWarranted :
    {es : List Event} {m : Process} (level : Level) (now : ℕ)
    → 0 < now
    → Run (started level now) es m
    → IsWarranted level es × ((was_stopped es ≡ false) ⊎ (sent_since es ≤ 1))
Run-IsWarranted level now pos r = ((holds r).warranted, Run-sent_since level now r)
  where
    holds : {es : List Event} {m : Process} → Run (started level now) es m → Holds level es m
    holds here = record {
      same_level = refl;
      time = pos;
      memory = started-Remembers level;
      retry = refl;
      looked = tt;
      warranted = tt;
    }
    holds (next {es} {e} {m1} r st) = Step-Holds level es m1 st (holds r)
