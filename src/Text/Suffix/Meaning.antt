-- ===== src/Text/Suffix/Meaning.antt =====
-- What `str_ends_with` of src/common/string.c decides.
use myfs.Base.{
  ◌-◌, ◌≤◌, ◌<◌, ◌≡◌, sym, ap, ◌∙◌, ◌↔◌, inl, inr, true, false, ◌||◌, Bool-cases, Bytes, ◌++◌, ltb,
  ◌==◌, same_text, same_text_refl, same_text_sound, length, take, drop, length-append, length-drop,
  take-ge, drop-ge, drop-append_le, take-append-drop, arith,
}
use myfs.Text.Suffix.{str_ends_with}

-- A suffix, other than the empty string.
abbrev pub IsSuffix : Bytes → Bytes → Type 0
IsSuffix match str = (0 < length match) × (front : Bytes) × (str ≡ front ++ match)

found_suffix : (str match : Bytes) → str_ends_with str match ≡ true → IsSuffix match str
unfolding str_ends_with
found_suffix str match h =
    elim (Bool-cases (length match == 0 || ltb (length str) (length match))) [
      | inl refused ↦ cc (rw (str_ends_with, refused) at h)
      | inr fits ↦
          let same : take (length match) (drop (length str - length match) str)
              ≡ take (length match) match =
            same_text_sound _ _ (rw (str_ends_with, fits) at h) in
          (
            ground arith,
            take (length str - length match) str,
            sym (take-append-drop (length str - length match) str)
                ∙ ap (λ x. take (length str - length match) str ++ x)
                    (sym
                        (take-ge (length match) (drop (length str - length match) str) (short fits))
                      ∙ same
                      ∙ take-ge (length match) match (omega arith)),
          )
    ]
  where
    short :
        (length match == 0 || ltb (length str) (length match)) ≡ false
        → length (drop (length str - length match) str) ≤ length match
    short fits = ground (arith, length-drop (length str - length match) str)

suffix_found :
    (front match : Bytes) → 0 < length match → str_ends_with (front ++ match) match ≡ true
unfolding str_ends_with
suffix_found front match pos =
    rw (str_ends_with, fits)
      (ap (λ x. same_text (take (length match) x) (take (length match) match)) behind
        ∙ same_text_refl (take (length match) match))
  where
    fits : (length match == 0 || ltb (length (front ++ match)) (length match)) ≡ false
    fits = ground (arith, length-append front match)

    behind : drop (length (front ++ match) - length match) (front ++ match) ≡ match
    behind =
        ap (λ n. drop n (front ++ match)) (omega (arith, length-append front match))
        ∙ drop-append_le (length front) front match (omega arith)
        ∙ ap (λ x. x ++ match) (drop-ge (length front) front (omega arith))

-- `str_ends_with` is true exactly where the second string is not empty and the first one is some
-- string with it behind.
pub str_ends_with_lem : (str match : Bytes) → (str_ends_with str match ≡ true) ↔ IsSuffix match str
str_ends_with_lem str match =
    (found_suffix str match, λ (pos, front, e). rw e (suffix_found front match pos))
