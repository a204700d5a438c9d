-- ===== src/Reclaimer/Thread.antt =====
-- The start and the stop of the thread of src/myfs/reclaimer.c.
use myfs.Base.{zero, suc, Bool, true, false, Option, none, some}
use myfs.Config.Number.{ℤ, pos}
use myfs.Reclaimer.{Reclaimer, Level, off, optimistic, aggressive}

-- `reclaimer_t`: what the thread shares, and whether it runs.
pub record Thread : Type 0 where
  pub shared : Reclaimer
  pub running : Bool

-- The levels that a number stands for in `reclaimer_level_t`.
unfoldable pub level_of : ℤ → Option Level
level_of (pos zero) = some off
level_of (pos (suc zero)) = some optimistic
level_of (pos (suc (suc zero))) = some aggressive
level_of z = none

unfoldable pub reclaimer_init : Thread
reclaimer_init = record {
  shared = record { level = off; last_action = 0; run = false };
  running = false;
}

abbrev with_level : Level → Thread → Thread
with_level level t = record t { shared = record t.shared { level = level } }

-- `connected` is the result of db_connect, and `created` whether pthread_create returns 0.
unfoldable pub reclaimer_start : Level → Bool → Bool → Thread → Bool × Thread
reclaimer_start off connected created t = (true, with_level off t)
reclaimer_start level false created t = (false, with_level level t)
reclaimer_start level true created t = (created, record (with_level level t) { running = created })

unfoldable pub reclaimer_stop : Thread → Thread
reclaimer_stop t = record t { running = false }
