-- ===== src/Tests/Store.antt =====
-- The theorems on truncation, overwriting and the block arithmetic, on the small database.
use myfs.Base.{
  ◌%◌, arith, ◌+◌, ◌*◌, ◌≤◌, ◌<◌, ◌≡◌, refl, false, [], ◌∷◌, Bytes, All, length, inl, inr, ◌^◌,
}
use myfs.Sql.{done}
use myfs.Sql.Tables.{effect}
use myfs.Sql.Keys.{accepts}
use myfs.Sql.Steps.{tables_of}
use myfs.Store.Block.{block_index, block_offset, block_count, insert_blocks}
use myfs.Store.Block.Bounds.{block_lem}
use myfs.Store.Truncate.{truncate, truncate_body, truncate_end}
use myfs.Store.Truncate.Returns.{IsNear, Returns, truncate-Returns}
use myfs.Store.Truncate.Failure.{truncate-kept}
use myfs.Store.Truncate.Measured.{IsMeasured}
use myfs.Store.Truncate.Content.{Truncated, truncate_lem}
use myfs.Store.Content.{content}
use myfs.Store.Write.{write, write_body, update_blocks, write_rest}
use myfs.Store.Write.Failure.{write-kept}
use myfs.Store.Write.Content.{Overwritten, write_lem}
use myfs.Base.{◌++◌}
use myfs.Text.Path.{slash, tokens}
use myfs.Text.Path.Tokens.{IsPart, joined, tokens_lem}
use myfs.Tests.Engine.{engine-Commits, binary, engine, engine-Documented, tables_of-engine}
use myfs.Tests.Examples.{server, de, server-WellFormed}

-- There is no file 9.
truncate_fails : (truncate engine 4 9 0 server).0 ≡ done false
unfolding truncate truncate_body truncate_end accepts
truncate_fails = refl

truncate-kept_example :
    tables_of binary engine engine-Documented (truncate engine 4 9 0 server).1
    ≡ tables_of binary engine engine-Documented server
truncate-kept_example = truncate-kept binary engine engine-Documented 4 9 0 server truncate_fails

write_fails : (write engine 9 de 0 server).0 ≡ false
unfolding write write_body update_blocks write_rest insert_blocks block_index block_offset
    block_count effect accepts
write_fails = refl

write-kept_example :
    tables_of binary engine engine-Documented (write engine 9 de 0 server).1
    ≡ tables_of binary engine engine-Documented server
write-kept_example = write-kept binary engine engine-Documented 9 de 0 server write_fails

block_lem_example :
    (5000 ≡ 4096 * block_index 5000 + block_offset 5000)
    × (block_offset 5000 < 4096)
    × (8192 ≤ 4096 * block_count 8192)
    × (4096 * block_count 8192 < 8192 + 4096)
block_lem_example = block_lem 5000 8192

abbrev path : Bytes
path = b'a' ∷ b'/' ∷ b'/' ∷ b'b' ∷ []

tokens_lem_example :
    All IsPart (tokens path)
    × (joined (tokens path) ≡ b'a' ∷ b'b' ∷ [])
    × (tokens (b'c' ∷ []) ≡ (b'c' ∷ []) ∷ [])
    × (tokens ((b'c' ∷ []) ++ slash ∷ path) ≡ (b'c' ∷ []) ∷ tokens path)
    × (tokens (slash ∷ path) ≡ tokens path)
tokens_lem_example = tokens_lem (b'c' ∷ []) path ((λ e. cc), (refl, tt))

files-IsNear : All (IsNear (0 + 4)) (tables_of binary engine engine-Documented server).files
files-IsNear = rw (tables_of-engine server) (omega arith, (omega arith, (omega arith, tt)))

truncate-Returns_example : Returns (truncate engine 4 1 0 server).0
truncate-Returns_example =
    truncate-Returns binary engine engine-Documented 1 4 0 server server-WellFormed files-IsNear

server-IsMeasured :
    All
      (IsMeasured 1 (length (content (tables_of binary engine engine-Documented server) 1)))
      (tables_of binary engine engine-Documented server).files
server-IsMeasured = rw (tables_of-engine server) (inl refl, (inr refl, (inl refl, tt)))

server-blank_room :
    length (content (tables_of binary engine engine-Documented server) 1) + 5000 + 8192 ≤ 2 ^ 44
server-blank_room = rw (tables_of-engine server) (omega arith)

truncate_lem_example :
    Truncated binary engine engine-Documented 1 5000 0 server
      (truncate engine 0 1 5000 server).0
      (truncate engine 0 1 5000 server).1
truncate_lem_example =
    truncate_lem binary engine engine-Documented 1 5000 0 server server-WellFormed server-blank_room
      server-IsMeasured engine-Commits

inside_abc : 1 + length de ≤ length (content (tables_of binary engine engine-Documented server) 1)
inside_abc = rw (tables_of-engine server) (omega arith)

one_counted : 1 % 4096 + length de ≤ 4096 * block_count (length de)
unfolding block_count
one_counted = omega arith

abc_room : length (content (tables_of binary engine engine-Documented server) 1) + 4096 ≤ 2 ^ 44
abc_room = rw (tables_of-engine server) (omega arith)

-- Two bytes in the middle of the file.
write_lem_example :
    Overwritten binary engine engine-Documented 1 de 1 server
      (write engine 1 de 1 server).0
      (write engine 1 de 1 server).1
write_lem_example =
    write_lem binary engine engine-Documented 1 de 1 server server-WellFormed inside_abc one_counted
      abc_room engine-Commits
