-- ===== src/Tests/Threads.antt =====
-- A run of the reclaimer's thread with callbacks and a stop in between.
use myfs.Base.{◌≤◌, ◌≡◌, ◌⊎◌, refl, true, false, List, [], ◌∷◌, arith}
use myfs.Reclaimer.{aggressive, deletion, should_run, notify, reset, end_round}
use myfs.Reclaimer.Process.{
  Process, ended, Event, notified, stopped, checked, sent, answered, Run, here, next, pass,
  callback, stop, enter, leave, check, wait, send, answer, started,
}
use myfs.Reclaimer.Process.Trace.{IsWarranted, was_stopped, sent_since}
use myfs.Reclaimer.Process.Warrant.{Run-IsWarranted}

-- A deletion, a query that fails, a wait, and the next one, which is sent after the stop.
abbrev events : List Event
events =
    answered true 130
    ∷ sent 130
    ∷ stopped
    ∷ checked 130
    ∷ checked 100
    ∷ answered false 100
    ∷ sent 100
    ∷ checked 100
    ∷ notified deletion 100
    ∷ []

abbrev last : Process
last = record {
  shared = record { level = aggressive; last_action = 0; run = false };
  running = false;
  next_try = 0;
  phase = ended;
  clock = 130;
}

ran : Run (started aggressive 100) events last
unfolding should_run notify end_round reset
ran =
    next
      (next
        (next
          (next
            (next
              (next
                (next
                  (next
                    (next
                      (next
                        (next
                          (next
                            (next (next (next here (callback deletion)) (enter refl refl))
                              (check refl refl))
                            (send refl refl))
                          (answer false refl))
                        (enter refl refl))
                      (check refl refl))
                    (wait refl refl))
                  (pass 30))
                (enter refl refl))
              (check refl refl))
            (stop refl))
          (send refl refl))
        (answer true refl))
      (leave refl refl)

Run-IsWarranted_example :
    IsWarranted aggressive events × ((was_stopped events ≡ false) ⊎ (sent_since events ≤ 1))
Run-IsWarranted_example = Run-IsWarranted aggressive 100 (omega arith) ran
