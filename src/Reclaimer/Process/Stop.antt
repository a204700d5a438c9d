-- ===== src/Reclaimer/Process/Stop.antt =====
-- What the thread of the reclaimer still does once it has been stopped.

use myfs.Base.{ℕ, ◌⊎◌, ◌+◌, ◌≤◌, ◌≡◌, refl, ap, inl, inr, Bool, true, false, Option, List, arith}
use myfs.Reclaimer.{Level}
use myfs.Reclaimer.Process.{
  Phase, top, entered, due, sending, ended, Process, Event, Step, pass, callback, stop, enter,
  leave, sleep, check, wait, send, answer, and_then, Run, here, next, started,
}
use myfs.Reclaimer.Process.Trace.{was_stopped, sent_since}

-- A query may come without another test of `running`.
abbrev pending : Phase → ℕ
pending entered = 1
pending due = 1
pending _ = 0

pending-le : (p : Phase) → pending p ≤ 1
pending-le top = omega arith
pending-le entered = omega arith
pending-le due = omega arith
pending-le sending = omega arith
pending-le ended = omega arith

-- By whether the thread is to run: it has not been stopped, or what is counted is at most one.
abbrev Halts : Bool → Bool → ℕ → Type 0
Halts true been n = been ≡ false
Halts false been n = n ≤ 1

Halts-le : (running been : Bool) (n n' : ℕ) → n' ≤ n → Halts running been n → Halts running been n'
Halts-le true been n n' le h = h
Halts-le false been n n' le h = omega arith

Halts-running :
    (running been : Bool) (n n' : ℕ) → running ≡ true → Halts running been n → Halts running been n'
Halts-running true been n n' e h = h
Halts-running false been n n' e h = cc

abbrev HaltsIn : List Event → Process → Type 0
HaltsIn es m = Halts m.running (was_stopped es) (sent_since es + pending m.phase)

module _ (es : List Event) (m : Process) (h : HaltsIn es m) where
  -- On to a phase that leaves no more to come.
  on_to :
      (p q : Phase) (n : ℕ)
      → m.phase ≡ p
      → n ≤ sent_since es + pending p
      → Halts m.running (was_stopped es) n
  on_to p q n e le =
      Halts-le m.running (was_stopped es) (sent_since es + pending m.phase) n
        (omega (arith, ap pending e)) h

Step-Halts :
    {e : Option Event} (es : List Event) (m : Process) {m1 : Process}
    → Step m e m1
    → HaltsIn es m
    → HaltsIn (and_then e es) m1
Step-Halts es m (pass n) h = h
Step-Halts es m (callback action) h = h
Step-Halts es m (stop on) h = omega (arith, pending-le m.phase)
Step-Halts es m (enter at on) h =
    Halts-running m.running (was_stopped es) (sent_since es + pending m.phase) _ on h
Step-Halts es m (leave at out) h = on_to es m h top ended _ at (omega arith)
Step-Halts es m (sleep at idle) h = on_to es m h entered top _ at (omega arith)
Step-Halts es m (check at go) h = on_to es m h entered due _ at (omega arith)
Step-Halts es m (wait at more) h = on_to es m h due top _ at (omega arith)
Step-Halts es m (send at now) h = on_to es m h due sending _ at (omega arith)
Step-Halts es m (answer ok at) h = on_to es m h sending top _ at (omega arith)

-- Once the reclaimer has been stopped its thread sends at most one more query.
pub Run-sent_since :
    {es : List Event} {m : Process} (level : Level) (now : ℕ)
    → Run (started level now) es m
    → (was_stopped es ≡ false) ⊎ (sent_since es ≤ 1)
Run-sent_since {es} {m} level now r = by_running m.running (holds r)
  where
    holds : {es : List Event} {m : Process} → Run (started level now) es m → HaltsIn es m
    holds here = refl
    holds (next {es} {e} {m1} r st) = Step-Halts es m1 st (holds r)

    by_running :
        (running : Bool)
        → Halts running (was_stopped es) (sent_since es + pending m.phase)
        → (was_stopped es ≡ false) ⊎ (sent_since es ≤ 1)
    by_running true h = inl h
    by_running false h = inr (omega arith)
