-- ===== src/Reclaimer/Process/Memory.antt =====
-- What the reclaimer shares holds the part of what has happened that its level asks for.

use myfs.Base.{ℕ, ◌<◌, ◌≡◌, refl, Bool, true, false, Option, none, some, List, [], ◌∷◌, arith}
use myfs.Reclaimer.{
  Level, off, optimistic, aggressive, Action, general, deletion, Reclaimer, should_run, notify,
  reset, end_round,
}
use myfs.Reclaimer.Process.{Event, notified, answered}
use myfs.Reclaimer.Process.Trace.{latest, deleted, half_hour_since, is_due_after, retry_from}

-- 0 stands for no notification.
abbrev Keeps : ℕ → Option ℕ → Type 0
Keeps last none = last ≡ 0
Keeps last (some at) = (last ≡ at) × (0 < at)

abbrev RemembersAt : Level → ℕ → Bool → Option ℕ → Bool → Type 0
RemembersAt off last run l b = Unit
RemembersAt optimistic last run l b = Keeps last l
RemembersAt aggressive last run l b = run ≡ b

abbrev pub Remembers : Reclaimer → List Event → Type 0
Remembers r es = RemembersAt r.level r.last_action r.run (latest es) (deleted es)

-- From the rows to the test of the thread.
pub Remembers-due :
    (r : Reclaimer) (now : ℕ) (es : List Event)
    → Remembers r es
    → should_run now r ≡ is_due_after r.level now es
unfolding should_run
Remembers-due r now es h = by_level r.level r.last_action r.run h
  where
    by_level :
        (level : Level) (last : ℕ) (run : Bool)
        → RemembersAt level last run (latest es) (deleted es)
        → should_run now (record { level = level; last_action = last; run = run })
          ≡ is_due_after level now es
    by_level off last run h = refl
    by_level optimistic last run h = by_latest (latest es) h
      where
        by_latest :
            (l : Option ℕ)
            → Keeps last l
            → should_run now (record { level = optimistic; last_action = last; run = run })
              ≡ half_hour_since now l
        by_latest none h = ground arith
        by_latest (some at) h = ground arith
    by_level aggressive last run h = h

-- The level is as before, and what is shared holds what has happened.
abbrev pub IsAfter : Reclaimer → List Event → Reclaimer → Type 0
IsAfter r es r' = (r'.level ≡ r.level) × Remembers r' es

pub notify-IsAfter :
    (action : Action) (now : ℕ) (r : Reclaimer) (es : List Event)
    → 0 < now
    → Remembers r es
    → IsAfter r (notified action now ∷ es) (notify action now r)
unfolding notify
notify-IsAfter action now r es pos h = by_level r.level r.last_action r.run action h
  where
    by_level :
        (level : Level) (last : ℕ) (run : Bool) (action : Action)
        → RemembersAt level last run (latest es) (deleted es)
        → let r' : Reclaimer = record { level = level; last_action = last; run = run } in
          IsAfter r' (notified action now ∷ es) (notify action now r')
    by_level off last run action h = (refl, tt)
    by_level optimistic last run action h = (refl, (refl, pos))
    by_level aggressive last run general h = (refl, h)
    by_level aggressive last run deletion h = (refl, refl)

pub end_round-IsAfter :
    (ok : Bool) (now : ℕ) (r : Reclaimer) (es : List Event)
    → Remembers r es
    → IsAfter r (answered ok now ∷ es) (end_round ok now r).1
unfolding end_round reset
end_round-IsAfter false now r es h = (refl, h)
end_round-IsAfter true now r es h = by_level r.level r.last_action r.run
  where
    by_level :
        (level : Level) (last : ℕ) (run : Bool)
        → let r' : Reclaimer = record { level = level; last_action = last; run = run } in
          IsAfter r' (answered true now ∷ es) (end_round true now r').1
    by_level off last run = (refl, tt)
    by_level optimistic last run = (refl, refl)
    by_level aggressive last run = (refl, refl)

pub started-Remembers :
    (level : Level) → Remembers (record { level = level; last_action = 0; run = false }) []
started-Remembers off = tt
started-Remembers optimistic = refl
started-Remembers aggressive = refl

pub end_round-retry_from :
    (ok : Bool) (now : ℕ) (r : Reclaimer) (es : List Event)
    → (end_round ok now r).0 ≡ retry_from (answered ok now ∷ es)
unfolding end_round
end_round-retry_from true now r es = refl
end_round-retry_from false now r es = refl
