-- ===== src/Store/Write/Overwrite.antt =====
-- Bytes with others in place of some of them, from an offset on.
use myfs.Base.{true, ltb, leb, ◌&&◌}
use myfs.Base.{
  ℕ, ◌+◌, ◌-◌, ◌≤◌, ◌≡◌, refl, ap, sym, ◌∙◌, [], ◌++◌, Bytes, length, take, drop, length-append,
  length-take, length-drop, append_assoc, append-nil, take-append-drop, take-append_le,
  drop-append_le, drop-ge, drop-drop, take-split, arith,
}
use myfs.Sql.Tables.{splice}

abbrev pub overwrite : ℕ → Bytes → Bytes → Bytes
overwrite o new old = take o old ++ (new ++ drop (o + length new) old)

pub overwrite-nil : (o : ℕ) (old : Bytes) → overwrite o [] old ≡ old
overwrite-nil o old = let e : o + 0 ≡ o = omega arith in rw e (take-append-drop o old)

pub splice-overwrite :
    (o n : ℕ) (new old : Bytes)
    → length new ≡ n
    → o ≤ length old
    → splice (o + 1) n new old ≡ overwrite o new old
splice-overwrite o n new old e le =
    let f : o + 1 - 1 ≡ o = omega arith in
    let inside : (ltb 0 (o + 1) && leb (o + 1) (length old + 1)) ≡ true = ground arith in
    rw (inside, f, e) refl

pub length-overwrite :
    (o : ℕ) (new old : Bytes)
    → o + length new ≤ length old
    → length (overwrite o new old) ≡ length old
length-overwrite o new old le = omega (
  arith,
  length-append (take o old) (new ++ drop (o + length new) old),
  length-append new (drop (o + length new) old),
  length-take o old,
  length-drop (o + length new) old,
)

module _ (o : ℕ) (new b r : Bytes) where
  -- All of it lies in the first part.
  pub overwrite-append_le :
      o + length new ≤ length b → overwrite o new (b ++ r) ≡ overwrite o new b ++ r
  overwrite-append_le le =
      rw (take-append_le o b r (omega arith), drop-append_le (o + length new) b r le)
        (ap (λ x. take o b ++ x) (sym (append_assoc new (drop (o + length new) b) r))
          ∙ sym (append_assoc (take o b) (new ++ drop (o + length new) b) r))

  -- It goes on in the second part.
  pub overwrite-append_split :
      (more : Bytes)
      → length b ≡ o + length new
      → overwrite o (new ++ more) (b ++ r) ≡ overwrite o new b ++ overwrite 0 more r
  overwrite-append_split more e =
      rw (take-append_le o b r (omega arith), cut, none_left, zero_first)
        (ap (λ x. take o b ++ x) (append_assoc new more (drop (length more) r))
          ∙ sym (append_assoc (take o b) new (more ++ drop (length more) r)))
    where
      zero_first : 0 + length more ≡ length more
      zero_first = omega arith

      none_left : new ++ drop (o + length new) b ≡ new
      none_left = ap (λ x. new ++ x) (drop-ge (o + length new) b (omega arith)) ∙ append-nil new

      cut : drop (o + length (new ++ more)) (b ++ r) ≡ drop (length more) r
      cut =
          ap (λ k. drop k (b ++ r)) (omega (arith, length-append new more))
          ∙ drop-drop (length b) (length more) (b ++ r)
          ∙ ap (drop (length more)) (
              drop-append_le (length b) b r (omega arith)
              ∙ ap (λ x. x ++ r) (drop-ge (length b) b (omega arith)))

-- Behind the first `a` bytes.
pub overwrite-drop :
    (a o : ℕ) (new old : Bytes)
    → take a old ++ overwrite o new (drop a old) ≡ overwrite (a + o) new old
overwrite-drop a o new old = rw (← after) (
    sym (append_assoc (take a old) (take o (drop a old)) (new ++ drop (a + o + length new) old))
    ∙ ap (λ x. x ++ (new ++ drop (a + o + length new) old)) before)
  where
    after : drop (a + o + length new) old ≡ drop (o + length new) (drop a old)
    after = ap (λ k. drop k old) (omega arith) ∙ drop-drop a (o + length new) old

    before : take a old ++ take o (drop a old) ≡ take (a + o) old
    before =
        ap (λ k. take a old ++ take k (drop a old)) (omega arith)
        ∙ take-split a (a + o) old (omega arith)
