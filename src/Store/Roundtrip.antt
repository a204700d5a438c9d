-- ===== src/Store/Roundtrip.antt =====
-- `myfs_db_file_append` and then `myfs_db_file_read` of src/myfs/myfs_db.c.

use myfs.Base.{
  ℕ, ◌+◌, ◌*◌, ◌^◌, ◌≤◌, ◌≡◌, ◌≢◌, ap, ◌∙◌, ◌⊎◌, inl, inr, true, none, some, [], Bytes, ◌++◌,
  length, take, drop, u32, drop-append_le, drop-ge, take-ge, arith,
}
use myfs.Sql.{Sql, Select, block_data, Outcome, done, fault, running}
use myfs.Sql.Tables.{Collation}
use myfs.Sql.Keys.{has_file}
use myfs.Sql.Laws.{Documented, Reliable}
use myfs.Sql.Steps.{Reliable-Commits, tables_of}
use myfs.Store.Block.{block_index, block_offset, block_count}
use myfs.Store.Content.{content, WellFormed, Changed}
use myfs.Store.Append.{append}
use myfs.Store.Append.Content.{append_lem}
use myfs.Store.Append.Success.{append_succeeds}
use myfs.Store.Read.{read_rows, read}
use myfs.Store.Read.Content.{read_lem}

drop-append : (xs ys : Bytes) (n : ℕ) → length xs ≡ n → drop n (xs ++ ys) ≡ ys
drop-append xs ys n e =
    drop-append_le n xs ys (omega arith) ∙ ap (λ x. x ++ ys) (drop-ge n xs (omega arith))

module _ (c : Collation) (db : Sql) (d : Documented c db) (r : Reliable c db d) where
  not_none :
      (o : Outcome Bytes) → (elim o [ done out ↦ done (some out) | other ↦ fault ]) ≢ done none
  not_none (done out) h = cc
  not_none fault h = cc
  not_none running h = cc

  -- On a reliable server no read fails.
  read_succeeds :
      (g room size offset : ℕ) (s : db.State) → (read db g room size offset s).0 ≢ done none
  unfolding read
  read_succeeds g room size offset s failed =
      let (rows, there) = r.selected q s in
      not_none (read_rows room rows (block_offset offset) size []) (rw (there, read) at failed)
    where
      q : Select
      q = block_data g (u32 (block_index offset)) (u32 (block_count size))

  -- A file whose content ends at a block boundary, `4096 * k`, is appended to and then read from
  -- there: both succeed and the read gives what was appended, of up to two blocks, where the server
  -- is reliable and the file has a row.
  pub read-append :
      (g k : ℕ) (bytes : Bytes) (s : db.State)
      → WellFormed (tables_of c db d s)
      → has_file g (tables_of c db d s) ≡ true
      → length (content (tables_of c db d s) g) ≡ 4096 * k
      → 4096 * k + length bytes + 8192 ≤ 2 ^ 44
      → length bytes ≤ 8192
      → let (success, s') = append db g bytes s in
        (success ≡ true)
        × ((read db g (length bytes) (length bytes) (4096 * k) s').0 ≡ done (some bytes))
  read-append g k bytes s w row at_end room few = (
    ok,
    only
        (read_lem c db d g (length bytes) (length bytes) k s' changed.formed few (omega arith)
          (omega arith)).0,
  )
    where
      ok : (append db g bytes s).0 ≡ true
      ok = append_succeeds c db d r g bytes s w (omega arith) row

      s' : db.State
      s' = (append db g bytes s).1

      changed :
          Changed
            (tables_of c db d s)
            (tables_of c db d s')
            g
            (content (tables_of c db d s) g ++ bytes)
      changed = (append_lem c db d g bytes s w (omega arith) (Reliable-Commits c db d r)).changed ok

      behind : take (length bytes) (drop (4096 * k) (content (tables_of c db d s') g)) ≡ bytes
      behind =
          ap (λ x. take (length bytes) (drop (4096 * k) x)) changed.content_is
          ∙ ap (take (length bytes))
              (drop-append (content (tables_of c db d s) g) bytes (4096 * k) at_end)
          ∙ take-ge (length bytes) bytes (omega arith)

      only :
          ((read db g (length bytes) (length bytes) (4096 * k) s').0 ≡ done none)
            ⊎ ((read db g (length bytes) (length bytes) (4096 * k) s').0
                ≡ done (
                    some (take (length bytes) (drop (4096 * k) (content (tables_of c db d s') g)))))
          → (read db g (length bytes) (length bytes) (4096 * k) s').0 ≡ done (some bytes)
      only (inl failed) =
          absurd (read_succeeds g (length bytes) (length bytes) (4096 * k) s' failed)
      only (inr found) = found ∙ ap (λ x. done (some x)) behind
