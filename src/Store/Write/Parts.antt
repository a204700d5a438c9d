-- ===== src/Store/Write/Parts.antt =====
-- The blocks of a file from an index on, and bytes that are written over them.

use myfs.Base.{
  ℕ, zero, suc, ◌+◌, ◌*◌, ◌≤◌, ◌≡◌, refl, ap, sym, ◌∙◌, List, [], ◌∷◌, ◌++◌, Bytes, length, take,
  drop, map, length-append, length-drop, take-append-drop, take-append_le, take-ge, arith,
}
use myfs.Sql.Tables.{Block}
use myfs.Store.Content.{content_of, Packed}
use myfs.Store.Content.Packed.{content_of-append}
use myfs.Store.Content.Seek.{Packed-drop, content_of-drop}
use myfs.Store.Write.Overwrite.{overwrite, overwrite-append_le, overwrite-drop}

pub take-map :
    {A B : Type 0} (f : A → B) (n : ℕ) (xs : List A) → take n (map f xs) ≡ map f (take n xs)
take-map f zero xs = refl
take-map f (suc n) [] = refl
take-map f (suc n) (x ∷ xs) = ap (λ r. f x ∷ r) (take-map f n xs)

-- The blocks in three parts: those before the block `i`, the next `n`, and what follows.
module _ (bs : List Block) (h : Packed 0 bs) (i n : ℕ)
    (inside : 4096 * i ≤ length (content_of bs)) where
  abbrev pub chosen : List Block
  chosen = take n (drop i bs)

  abbrev pub behind : List Block
  behind = drop n (drop i bs)

  pub three_parts : bs ≡ take i bs ++ (chosen ++ behind)
  three_parts =
      sym (ap (λ x. take i bs ++ x) (take-append-drop n (drop i bs)) ∙ take-append-drop i bs)

  content_from : content_of (chosen ++ behind) ≡ drop (4096 * i) (content_of bs)
  content_from = ap content_of (take-append-drop n (drop i bs)) ∙ content_of-drop 0 i bs h

  content_before : content_of (take i bs) ≡ take (4096 * i) (content_of bs)
  content_before = sym (
      ap (take (4096 * i))
        (ap content_of (sym (take-append-drop i bs)) ∙ content_of-append (take i bs) (drop i bs))
      ∙ take-append_le (4096 * i) (content_of (take i bs)) (content_of (drop i bs))
          (omega (arith, size))
      ∙ take-ge (4096 * i) (content_of (take i bs)) (omega (arith, size)))
    where
      size : length (content_of (take i bs)) ≡ 4096 * i
      size = omega (
        arith,
        ap (λ x. length (content_of x)) (take-append-drop i bs),
        ap length (content_of-append (take i bs) (drop i bs)),
        length-append (content_of (take i bs)) (content_of (drop i bs)),
        ap length (content_of-drop 0 i bs h),
        length-drop (4096 * i) (content_of bs),
      )

  pub length-chosen :
      (m : ℕ)
      → m ≤ 4096 * n
      → 4096 * i + m ≤ length (content_of bs)
      → m ≤ length (content_of chosen)
  length-chosen m le le' = omega (
    arith,
    ap length content_from,
    ap length (content_of-append chosen behind),
    length-append (content_of chosen) (content_of behind),
    ap length (content_of-drop (0 + i) n (drop i bs) (Packed-drop 0 i bs h)),
    ap (λ x. length (drop (4096 * n) x)) (content_of-drop 0 i bs h),
    length-drop (4096 * n) (drop (4096 * i) (content_of bs)),
    length-drop (4096 * i) (content_of bs),
  )

  -- Bytes written over the blocks in the middle are written over the content.
  pub overwrite-parts :
      (o : ℕ) (bytes : Bytes)
      → o + length bytes ≤ length (content_of chosen)
      → content_of (take i bs) ++ (overwrite o bytes (content_of chosen) ++ content_of behind)
        ≡ overwrite (4096 * i + o) bytes (content_of bs)
  overwrite-parts o bytes le = rw content_before (
      ap (λ x. take (4096 * i) (content_of bs) ++ x)
        (sym (overwrite-append_le o bytes (content_of chosen) (content_of behind) le)
          ∙ ap (overwrite o bytes) (sym (content_of-append chosen behind) ∙ content_from))
      ∙ overwrite-drop (4096 * i) o bytes (content_of bs))
