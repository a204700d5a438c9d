-- ===== src/Store/Read/Content.antt =====
-- What `read` returns from a block boundary on.
use myfs.Base.{
  ℕ, zero, suc, ◌+◌, ◌-◌, ◌*◌, ◌^◌, ◌≤◌, ◌<◌, ◌≡◌, refl, sym, ◌∙◌, ap, ◌⊎◌, inl, inr, false, ◌||◌,
  none, some, List, [], ◌∷◌, ◌++◌, Bytes, ltb, if◌then◌else◌, Bool-cases, Option-cases, length,
  take, drop, map, u32, sub64, take-ge, take-append_le, take-append_ge, append-nil, arith,
}
use myfs.Sql.{Sql, Select, DataRow, block_data, done, fault}
use myfs.Sql.Tables.{Block, Collation, data_of, from_index}
use myfs.Store.Content.{content, content_of, Packed, WellFormed}
use myfs.Store.Content.Seek.{from_index-drop, content_of-drop, Packed-drop}
use myfs.Sql.Laws.{Documented}
use myfs.Sql.Steps.{tables_of, tables_unchanged}
use myfs.Store.Block.{block_index, block_offset, block_count}
use myfs.Store.Read.{read_rows, read}

-- A row from its start: as many bytes as asked for, if it has them.
read_rows-step :
    (room size : ℕ) (b : Block) (rows : List DataRow) (out : Bytes)
    → length b.bytes ≤ 4096
    → length out + size ≤ room
    → let w = if ltb size (length b.bytes) then size else length b.bytes in
      read_rows room (data_of b ∷ rows) 0 size out
      ≡ read_rows room rows 0 (sub64 size (length out + w)) (out ++ take w b.bytes)
unfolding read_rows
read_rows-step room size b rows out l h = rw (fits, in_bounds)
  where
    w : ℕ
    w = if ltb size (length b.bytes) then size else length b.bytes

    fits : u32 w ≡ w
    fits = ground arith

    in_bounds : (ltb (length b.bytes) (0 + w) || ltb room (length out + w)) ≡ false
    in_bounds = ground arith

take-row :
    (size : ℕ) (bytes : Bytes)
    → take (if ltb size (length bytes) then size else length bytes) bytes ≡ take size bytes
take-row size bytes = elim (Bool-cases (ltb size (length bytes))) [
  | inl less ↦ rw less
  | inr all ↦
      rw all (take-ge (length bytes) bytes (omega arith) ∙ sym (take-ge size bytes (ground arith)))
]

-- The last row to be read.
read_rows-one :
    (room size : ℕ) (b : Block) (out : Bytes)
    → length b.bytes ≤ 4096
    → length out + size ≤ room
    → read_rows room (data_of b ∷ []) 0 size out ≡ done (out ++ take size b.bytes)
unfolding read_rows
read_rows-one room size b out l h =
    read_rows-step room size b [] out l h ∙ ap (λ x. done (out ++ x)) (take-row size b.bytes)

-- One block is enough for a size of at most a block.
take-first :
    (i size : ℕ) (b : Block) (r : List Block)
    → Packed i (b ∷ r)
    → size ≤ 4096
    → take size (b.bytes ++ content_of r) ≡ take size b.bytes
take-first i size b [] h le = ap (take size) (append-nil b.bytes)
take-first i size b (c ∷ r) h le = take-append_le size b.bytes (content_of (c ∷ r)) (omega arith)

first-fits : (i : ℕ) (b : Block) (r : List Block) → Packed i (b ∷ r) → length b.bytes ≤ 4096
first-fits i b [] h = h.2
first-fits i b (c ∷ r) h = omega arith

one_block :
    (i room size : ℕ) (bs : List Block) (out : Bytes)
    → Packed i bs
    → size ≤ 4096
    → length out + size ≤ room
    → read_rows room (take 1 (map data_of bs)) 0 size out ≡ done (out ++ take size (content_of bs))
unfolding read_rows
one_block i room size [] out h le f =
    ap (λ x. done x)
      (sym (append-nil out) ∙ ap (λ x. out ++ x) (sym (take-ge size [] (omega arith))))
one_block i room size (b ∷ r) out h le f =
    read_rows-one room size b out (first-fits i b r h) f
    ∙ ap (λ x. done (out ++ x)) (sym (take-first i size b r h le))

two_blocks :
    (i room size : ℕ) (bs : List Block)
    → Packed i bs
    → 4096 < size
    → size ≤ 8192
    → size ≤ room
    → read_rows room (take 2 (map data_of bs)) 0 size [] ≡ done (take size (content_of bs))
unfolding read_rows
two_blocks i room size [] h lo hi f = ap (λ x. done x) (sym (take-ge size [] (omega arith)))
two_blocks i room size (b ∷ []) h lo hi f =
    read_rows-one room size b [] h.2 (omega arith)
    ∙ ap (λ x. done (take size x)) (sym (append-nil b.bytes))
two_blocks i room size (b ∷ e ∷ r) h lo hi f =
    read_rows-step room size b (take 1 (map data_of (e ∷ r))) [] (omega arith) (omega arith)
    ∙ ap (λ x. read_rows room (take 1 (map data_of (e ∷ r))) 0 x (take w b.bytes)) rest
    ∙ ap (λ x. read_rows room (take 1 (map data_of (e ∷ r))) 0 (size - 4096) x) whole
    ∙ one_block (suc i) room (size - 4096) (e ∷ r) b.bytes h.2 (omega arith) (omega arith)
    ∙ ap (λ x. done x) joined
  where
    w : ℕ
    w = if ltb size (length b.bytes) then size else length b.bytes

    full : w ≡ 4096
    full = ground arith

    rest : sub64 size (0 + w) ≡ size - 4096
    rest = rw full (omega arith)

    whole : take w b.bytes ≡ b.bytes
    whole = take-ge w b.bytes (omega (arith, full))

    joined : b.bytes ++ take (size - 4096) (content_of (e ∷ r)) ≡ take size (content_of (b ∷ e ∷ r))
    joined =
        let l : length b.bytes ≡ 4096 = h.1 in
        sym (
          take-append_ge size b.bytes (content_of (e ∷ r)) (omega arith)
          ∙ ap (λ k. b.bytes ++ take (size - k) (content_of (e ∷ r))) l)

rows_lem :
    (i room size : ℕ) (bs : List Block)
    → Packed i bs
    → size ≤ 8192
    → size ≤ room
    → read_rows room (take (u32 (block_count size)) (map data_of bs)) 0 size []
      ≡ done (take size (content_of bs))
unfolding read_rows block_count
rows_lem i room zero bs h le f = refl
rows_lem i room (suc n) bs h le f = elim (Bool-cases (ltb 4096 (suc n))) [
  | inl two ↦
      let k : u32 (block_count (suc n)) ≡ 2 = ground arith in
      ap (λ m. read_rows room (take m (map data_of bs)) 0 (suc n) []) k
      ∙ two_blocks i room (suc n) bs h (ground arith) le f
  | inr one ↦
      let k : u32 (block_count (suc n)) ≡ 1 = ground arith in
      ap (λ m. read_rows room (take m (map data_of bs)) 0 (suc n) []) k
      ∙ one_block i room (suc n) bs [] h (ground arith) (omega arith)
]

map-drop : (n : ℕ) (bs : List Block) → map data_of (drop n bs) ≡ drop n (map data_of bs)
map-drop zero bs = refl
map-drop (suc n) [] = refl
map-drop (suc n) (b ∷ r) = map-drop n r

-- At a block boundary, for at most two blocks, `read` returns the content of the file from there
-- on, as many bytes as are asked for and are there, or it reports a failure; never is memory beyond
-- a row or the buffer touched, nor are the tables changed.
pub read_lem :
    (c : Collation) (db : Sql) (d : Documented c db) (g room size k : ℕ) (s : db.State)
    → WellFormed (tables_of c db d s)
    → size ≤ 8192
    → size ≤ room
    → k < 2 ^ 32
    → let (r, s') = read db g room size (4096 * k) s in
      ((r ≡ done none)
        ⊎ (r ≡ done (some (take size (drop (4096 * k) (content (tables_of c db d s) g))))))
      × (tables_of c db d s' ≡ tables_of c db d s)
unfolding read
read_lem c db d g room size k s w le f small = elim (Option-cases (db.select q s).0) [
  | inl lost ↦ rw (lost, read) (inl refl, tables_unchanged c db d q s)
  | inr (rows, there) ↦
      rw (there, read, start)
        (
          inr (
              ap (λ o. elim o [ done out ↦ done (some out) | other ↦ fault ])
                (from_rows rows there)),
          tables_unchanged c db d q s,
        )
]
  where
    bs : List Block
    bs = (tables_of c db d s).blocks g

    first : u32 (block_index (4096 * k)) ≡ 0 + k
    first = ground (arith, block_index)

    start : block_offset (4096 * k) ≡ 0
    start = ground (arith, block_offset)

    q : Select
    q = block_data g (u32 (block_index (4096 * k))) (u32 (block_count size))

    from : from_index (u32 (block_index (4096 * k))) bs ≡ drop k bs
    from = from_index-drop 0 (u32 (block_index (4096 * k))) k bs (w.packed g) first

    from_rows :
        (rows : List DataRow)
        → (db.select q s).0 ≡ some rows
        → read_rows room rows 0 size [] ≡ done (take size (drop (4096 * k) (content_of bs)))
    from_rows rows there =
        ap (λ r. read_rows room r 0 size [])
          (d.answered q s rows there ∙ ap (λ x. take (u32 (block_count size)) (map data_of x)) from)
        ∙ rows_lem (0 + k) room size (drop k bs) (Packed-drop 0 k bs (w.packed g)) le f
        ∙ ap (λ x. done (take size x)) (content_of-drop 0 k bs (w.packed g))
