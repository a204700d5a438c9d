-- ===== src/Db/Tries.antt =====
-- The tries of a query by `db_query_timed`, as a relation on the client's states, and that the loop
-- makes no others.
use mathlib.Core.Path.{subst}
use mathlib.Core.Option.{some-injective}
use myfs.Base.{
  ℕ, zero, suc, ◌+◌, ◌≤◌, ◌<◌, ◌≡◌, refl, sym, ◌∙◌, ◌⊎◌, inl, inr, Bool, true, false, Bool-cases,
  Option, none, some, Option-cases, [], ltb, leb, ap, arith,
}
use myfs.Sql.{Outcome, done, fault, running}
use myfs.Db.{Client, Retry, Db, query_timed, with_error}

got : {A : Type 0} (a b : A) → done a ≡ done b → a ≡ b
got a b e = ap (λ o. elim o [ done x ↦ x | fault ↦ a | running ↦ a ]) e

module _ {T : Type 0} {R : T → Type 0} (m : Client T R) where
  -- From a state, with a timer at `next_try`, `n` tries fail and are each waited for until as many
  -- seconds have passed as the settings say; the try after them has the result.
  pub data Tries (retry : Retry) (query : T) : ℕ → ℕ → m.State → Bool → m.State → Type 0 where
    slept :
        {next_try n : ℕ} {s s' : m.State} {success : Bool}
        → m.time s < next_try
        → Tries retry query next_try n (m.sleep s) success s'
        → Tries retry query next_try n s success s'
    last_try :
        {next_try : ℕ} {s : m.State} (success : Bool) (s' : m.State)
        → next_try ≤ m.time s
        → m.real_query query s ≡ (success, s')
        → Tries retry query next_try zero s success s'
    failed_try :
        {next_try n : ℕ} {s s' : m.State} {success : Bool} (wait : ℕ) (s1 : m.State)
        → next_try ≤ m.time s
        → m.real_query query s ≡ (false, s1)
        → retry.wait ≡ some wait
        → Tries retry query (m.time s1 + wait) n s1 success s'
        → Tries retry query next_try (suc n) s success s'

  -- `n` tries that fail are within the limit, where `count` have failed before.
  abbrev pub IsWithin : Option ℕ → ℕ → ℕ → Type 0
  IsWithin none count n = Unit {0}
  IsWithin (some limit) count n = (n ≡ 0) ⊎ (count + n < limit)

  -- A failure may be reported after `n + 1` tries: there are no retries, or the limit is reached.
  abbrev pub MayFail : Retry → ℕ → ℕ → Type 0
  MayFail retry count n =
      (retry.wait ≡ none) ⊎ ((limit : ℕ) × (retry.limit ≡ some limit) × (limit ≤ count + n + 1))

  pub record Tried (query : T) (next_try count : ℕ) (d : Db m) (success : Bool) (d' : Db m)
      : Type 0 where
    pub n : ℕ
    pub tries : Tries d.retry query next_try n d.mysql success d'.mysql
    pub within : IsWithin d.retry.limit count n
    pub gives_up : (success ≡ true) ⊎ MayFail d.retry count n
    pub error : (success ≡ false) ⊎ (d'.error ≡ [])
    pub kept : d'.retry ≡ d.retry

  IsWithin-zero : (limit : Option ℕ) (count : ℕ) → IsWithin limit count 0
  IsWithin-zero none count = tt
  IsWithin-zero (some limit) count = inl refl

  -- The first try is the last.
  ended :
      (query : T) (next_try count : ℕ) (d : Db m) (success : Bool) (d' : Db m)
      → next_try ≤ m.time d.mysql
      → (m.real_query query d.mysql).0 ≡ success
      → (m.real_query query d.mysql).1 ≡ d'.mysql
      → d'.retry ≡ d.retry
      → (success ≡ true) ⊎ MayFail d.retry count 0
      → (success ≡ false) ⊎ (d'.error ≡ [])
      → Tried query next_try count d success d'
  ended query next_try count d success d' due e0 e1 kept gives_up error = record {
    n = 0;
    tries = last_try success d'.mysql due (λ i. (e0 i, e1 i));
    within = IsWithin-zero d.retry.limit count;
    gives_up = gives_up;
    error = error;
    kept = kept;
  }

  -- The first try fails, and others follow.
  again :
      (query : T) (next_try count count' wait : ℕ) (d : Db m) (success : Bool) (d' : Db m)
      → next_try ≤ m.time d.mysql
      → (m.real_query query d.mysql).0 ≡ false
      → d.retry.wait ≡ some wait
      → ((n : ℕ) → IsWithin d.retry.limit count' n → IsWithin d.retry.limit count (suc n))
      → ((n : ℕ) → MayFail d.retry count' n → MayFail d.retry count (suc n))
      → Tried query
          (m.time (m.real_query query d.mysql).1 + wait)
          count'
          (record d { mysql = (m.real_query query d.mysql).1 })
          success
          d'
      → Tried query next_try count d success d'
  again query next_try count count' wait d success d' due bad waits within gives_up t = record {
    n = suc t.n;
    tries =
        failed_try wait (m.real_query query d.mysql).1 due
          (λ i. (bad i, (m.real_query query d.mysql).1)) waits t.tries;
    within = within t.n t.within;
    gives_up = elim t.gives_up [ inl e ↦ inl e | inr may ↦ inr (gives_up t.n may) ];
    error = t.error;
    kept = t.kept;
  }

  MayFail-suc : (retry : Retry) (count n : ℕ) → MayFail retry count n → MayFail retry count (suc n)
  MayFail-suc retry count n (inl no_wait) = inl no_wait
  MayFail-suc retry count n (inr (limit, e, le)) = inr (limit, e, omega arith)

  MayFail-count :
      (retry : Retry) (count n : ℕ) → MayFail retry (count + 1) n → MayFail retry count (suc n)
  MayFail-count retry count n (inl no_wait) = inl no_wait
  MayFail-count retry count n (inr (limit, e, le)) = inr (limit, e, omega arith)

  IsWithin-count :
      (o : Option ℕ) (limit count : ℕ)
      → o ≡ some limit
      → count + 1 < limit
      → (n : ℕ) → IsWithin o (count + 1) n
      → IsWithin o count (suc n)
  IsWithin-count none limit count e lt n w = tt
  IsWithin-count (some l) limit count e lt n (inl zeroed) =
      let same : l ≡ limit = some-injective l limit e in inr (omega arith)
  IsWithin-count (some l) limit count e lt n (inr small) = inr (omega arith)

  -- Where the loop returns, it has come there by tries of the query, each no sooner than the wait
  -- after the one that failed before it. All but the last have failed; they are fewer than the limit
  -- where there is one, and a failure is reported only without retries or at the limit. After a
  -- success there is no error text. The settings are as they were.
  pub query_timed-Tried :
      (fuel : ℕ) (query : T) (next_try count : ℕ) (d : Db m) (success : Bool)
      → (query_timed m fuel query next_try count d).0 ≡ done success
      → Tried query next_try count d success (query_timed m fuel query next_try count d).1
  unfolding query_timed
  query_timed-Tried zero query next_try count d success h = cc
  query_timed-Tried (suc fuel) query next_try count d success h =
      elim (Bool-cases (ltb (m.time d.mysql) next_try)) [
        | inl early ↦
            from (query_timed m fuel query next_try count asleep) (rw (query_timed, early)) (λ e.
              after_sleep early (query_timed-Tried fuel query next_try count asleep success e))
        | inr late ↦ elim (Bool-cases sent.0) [
          | inl ok ↦
              from (done true, answered) (rw (query_timed, late, ok))
                (λ e.
                  subst (λ b. Tried query next_try count d b answered) (got true success e)
                    (ended query next_try count d true answered (due late) ok refl refl (inl refl)
                      (inr refl)))
          | inr bad ↦ elim (Option-cases d.retry.wait) [
            | inl no_wait ↦
                from (done false, with_error m d sent.1) (ground arith)
                  (given_up late bad (inl no_wait))
            | inr (wait, waits) ↦ elim (Option-cases d.retry.limit) [
              | inl forever ↦ from (next wait count) (ground arith) (λ e.
                  again query next_try count count wait d success (next wait count).1 (due late) bad
                    waits (λ n w. rw forever tt) (MayFail-suc d.retry count)
                    (query_timed-Tried fuel query (m.time sent.1 + wait) count went_on success e))
              | inr (limit, limited) ↦ elim (Bool-cases (leb limit (count + 1))) [
                | inl reached ↦
                    from (done false, with_error m d sent.1) (ground arith)
                      (given_up late bad (inr (limit, limited, ground arith)))
                | inr more ↦ from (next wait (count + 1)) (ground arith) (λ e.
                    again query next_try count (count + 1) wait d success (next wait (count + 1)).1
                      (due late) bad waits
                      (IsWithin-count d.retry.limit limit count limited (ground arith))
                      (MayFail-count d.retry count)
                      (query_timed-Tried fuel query (m.time sent.1 + wait) (count + 1) went_on
                        success e))
              ]
            ]
          ]
        ]
      ]
    where
      sent : Bool × m.State
      sent = m.real_query query d.mysql

      asleep : Db m
      asleep = record d { mysql = m.sleep d.mysql }

      went_on : Db m
      went_on = record d { mysql = sent.1 }

      due : ltb (m.time d.mysql) next_try ≡ false → next_try ≤ m.time d.mysql
      due late = ground arith

      after_sleep :
          ltb (m.time d.mysql) next_try ≡ true
          → {d' : Db m} → Tried query next_try count asleep success d'
          → Tried query next_try count d success d'
      after_sleep early t = record {
        n = t.n;
        tries = slept (ground arith) t.tries;
        within = t.within;
        gives_up = t.gives_up;
        error = t.error;
        kept = t.kept;
      }

      answered : Db m
      answered = record d { mysql = sent.1; error = [] }

      next : ℕ → ℕ → Outcome Bool × Db m
      next wait tried = query_timed m fuel query (m.time sent.1 + wait) tried went_on

      from :
          (r : Outcome Bool × Db m)
          → query_timed m (suc fuel) query next_try count d ≡ r
          → (r.0 ≡ done success → Tried query next_try count d success r.1)
          → Tried query next_try count d success (query_timed m (suc fuel) query next_try count d).1
      from r e k =
          subst (λ (x : Outcome Bool × Db m). Tried query next_try count d success x.1) (sym e)
            (k (ap (λ (x : Outcome Bool × Db m). x.0) (sym e) ∙ h))

      given_up :
          ltb (m.time d.mysql) next_try ≡ false
          → sent.0 ≡ false
          → MayFail d.retry count 0
          → done false ≡ done success
          → Tried query next_try count d success (with_error m d sent.1)
      given_up late bad may e =
          subst (λ b. Tried query next_try count d b (with_error m d sent.1)) (got false success e)
            (ended query next_try count d false (with_error m d sent.1) (due late) bad refl refl
              (inr may) (inl refl))
