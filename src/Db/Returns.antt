-- ===== src/Db/Returns.antt =====
-- `db_query_timed` returns where it does not retry for ever, on a clock that goes on.
use mathlib.Core.Option.{some-injective}
use myfs.Base.{
  ℕ, zero, suc, ◌+◌, ◌≤◌, ◌≡◌, refl, ◌∙◌, ◌⊎◌, inl, inr, Bool, true, false, Bool-cases, none, some,
  Option-cases, ◌≢◌, sym, ltb, leb, arith,
}
use myfs.Sql.{done}
use myfs.Db.{Client, Retry, Db, query_timed, db_query}

module _ {T : Type 0} {R : T → Type 0} (m : Client T R) where
  abbrev pub sleeps : ℕ → m.State → m.State
  sleeps zero s = s
  sleeps (suc k) s = sleeps k (m.sleep s)

  -- Whatever time is waited for comes, after enough sleeps.
  abbrev pub Passes : Type 0
  Passes = (t : ℕ) (s : m.State) → (k : ℕ) × (t ≤ m.time (sleeps k s))

  -- There are no retries, or at most `left` after `count` failures.
  abbrev IsFinite : Retry → ℕ → ℕ → Type 0
  IsFinite retry count left =
      (retry.wait ≡ none) ⊎ ((limit : ℕ) × (retry.limit ≡ some limit) × (limit ≤ count + left))

  -- The settings end every loop: the wait is -1, or the limit is not.
  abbrev pub Ends : Retry → Type 0
  Ends retry = (retry.wait ≡ none) ⊎ ((limit : ℕ) × (retry.limit ≡ some limit))

  module _ (passes : Passes) (query : T) where
    abbrev Returned : ℕ → ℕ → Db m → Type 0
    Returned next_try count d =
        (fuel : ℕ) × (success : Bool) × ((query_timed m fuel query next_try count d).0
          ≡ done success)

    abbrev sent : Db m → Bool × m.State
    sent d = m.real_query query d.mysql

    -- One round, given what the rounds after it do.
    round :
        (next_try count : ℕ) (d : Db m)
        → Ends d.retry
        → (ltb (m.time d.mysql) next_try ≡ true
            → Returned next_try count (record d { mysql = m.sleep d.mysql }))
        → ((wait limit : ℕ)
            → d.retry.wait ≡ some wait
            → d.retry.limit ≡ some limit
            → leb limit (count + 1) ≡ false
            → Returned (m.time (sent d).1 + wait) (count + 1) (record d { mysql = (sent d).1 }))
        → Returned next_try count d
    unfolding query_timed
    round next_try count d ends asleep more = elim (Bool-cases (ltb (m.time d.mysql) next_try)) [
      | inl early ↦
          let (fuel, success, e) = asleep early in (suc fuel, success, rw (query_timed, early) e)
      | inr late ↦ elim (Bool-cases (sent d).0) [
        | inl ok ↦ (1, true, rw (query_timed, late, ok) refl)
        | inr bad ↦ failed late bad (Option-cases d.retry.wait) ends
      ]
    ]
      where
        failed :
            ltb (m.time d.mysql) next_try ≡ false
            → (sent d).0 ≡ false
            → (d.retry.wait ≡ none) ⊎ ((wait : ℕ) × (d.retry.wait ≡ some wait))
            → Ends d.retry
            → Returned next_try count d
        failed late bad (inl no_wait) ends = (1, false, ground arith)
        failed late bad (inr (wait, waits)) (inl no_wait) = (1, false, ground arith)
        failed late bad (inr (wait, waits)) (inr (limit, limited)) =
            elim (Bool-cases (leb limit (count + 1))) [
              | inl reached ↦ (1, false, ground arith)
              | inr below ↦
                  let (fuel, success, e) = more wait limit waits limited below in
                  (suc fuel, success, rw (query_timed, late, bad, waits, limited, below) e)
            ]

    bounded_of : (retry : Retry) (count left : ℕ) → IsFinite retry count left → Ends retry
    bounded_of retry count left (inl no_wait) = inl no_wait
    bounded_of retry count left (inr (limit, limited, le)) = inr (limit, limited)

    fewer :
        (retry : Retry) (count left : ℕ)
        → IsFinite retry count (suc left)
        → IsFinite retry (count + 1) left
    fewer retry count left (inl no_wait) = inl no_wait
    fewer retry count left (inr (l, limited, le)) = inr (l, limited, omega arith)

    spent :
        (retry : Retry) (count wait limit : ℕ)
        → IsFinite retry count 0
        → retry.wait ≡ some wait
        → retry.limit ≡ some limit
        → leb limit (count + 1) ≢ false
    spent retry count wait limit (inl no_wait) waits limited below = cc
    spent retry count wait limit (inr (l, is_l, le)) waits limited below =
        let same : l ≡ limit = some-injective l limit (sym is_l ∙ limited) in ground arith

    woken : (next_try : ℕ) (s : m.State) → next_try ≤ m.time s → ltb (m.time s) next_try ≢ true
    woken next_try s comes early = ground arith

    returns_from :
        (left k next_try count : ℕ) (d : Db m)
        → IsFinite d.retry count left
        → next_try ≤ m.time (sleeps k d.mysql)
        → Returned next_try count d
    returns_from zero zero next_try count d fin comes =
        round next_try count d (bounded_of d.retry count 0 fin)
          (λ early. absurd (woken next_try d.mysql comes early))
          (λ wait limit waits limited below.
            absurd (spent d.retry count wait limit fin waits limited below))
    returns_from zero (suc k) next_try count d fin comes =
        round next_try count d (bounded_of d.retry count 0 fin)
          (λ early.
            returns_from zero k next_try count (record d { mysql = m.sleep d.mysql }) fin comes)
          (λ wait limit waits limited below.
            absurd (spent d.retry count wait limit fin waits limited below))
    returns_from (suc left) zero next_try count d fin comes =
        round next_try count d (bounded_of d.retry count (suc left) fin)
          (λ early. absurd (woken next_try d.mysql comes early))
          (λ wait limit waits limited below.
            let (k, come) = passes (m.time (sent d).1 + wait) (sent d).1 in
            returns_from left k (m.time (sent d).1 + wait) (count + 1)
              (record d { mysql = (sent d).1 }) (fewer d.retry count left fin) come)
    returns_from (suc left) (suc k) next_try count d fin comes =
        round next_try count d (bounded_of d.retry count (suc left) fin)
          (λ early.
            returns_from (suc left) k next_try count (record d { mysql = m.sleep d.mysql }) fin
              comes)
          (λ wait limit waits limited below.
            let (k', come) = passes (m.time (sent d).1 + wait) (sent d).1 in
            returns_from left k' (m.time (sent d).1 + wait) (count + 1)
              (record d { mysql = (sent d).1 }) (fewer d.retry count left fin) come)

    finite : (retry : Retry) → Ends retry → (left : ℕ) × IsFinite retry 0 left
    finite retry (inl no_wait) = (0, inl no_wait)
    finite retry (inr (limit, limited)) = (limit, inr (limit, limited, omega arith))

    -- Where the wait is -1 or the limit is not, and time goes on, the loop returns for some fuel.
    pub db_query_returns :
        (d : Db m)
        → Ends d.retry
        → (fuel : ℕ) × (success : Bool) × ((db_query m fuel query d).0 ≡ done success)
    unfolding db_query
    db_query_returns d ends =
        let (left, fin) = finite d.retry ends in returns_from left 0 0 0 d fin (omega arith)
