-- ===== src/Tests/Directories.antt =====
-- What mkdir and rmdir do, on the small database.
use myfs.Base.{ℕ, ◌<◌, ◌≡◌, refl, some, [], ◌∷◌, Bytes, arith}
use myfs.Sql.Steps.{tables_of}
use myfs.Text.Path.{tokens, util_dirname, dirname}
use myfs.Text.Copy.{strlcpy, string_of, copy_loop}
use myfs.Store.Query.Tree.{IsTree}
use myfs.Fs.Walk.Finds.{find_below}
use myfs.Fs.Change.{rmdir, mkdir, dir_size}
use myfs.Fs.Change.Removes.{removed, left_by, rmdir_lem}
use myfs.Fs.Change.Makes.{made, mkdir_lem}
use myfs.Tests.Engine.{binary, engine, engine-Documented, engine-Reliable, tables_of-engine}
use myfs.Tests.Examples.{server}
use myfs.Tests.Callbacks.{around, closed, path_f, idle_reclaimer}

server-IsTree_around :
    IsTree around.fuel (tables_of binary engine engine-Documented closed.conn).files
server-IsTree_around = rw (tables_of-engine server) (refl, (refl, (refl, tt)))

rmdir_lem_example :
    left_by binary engine engine-Documented (rmdir engine around path_f closed)
    ≡ removed binary 100 (tables_of binary engine engine-Documented server) idle_reclaimer (
        find_below binary
          (tables_of binary engine engine-Documented server)
          ([] ∷ tokens (b'f' ∷ []))
          (some 0))
rmdir_lem_example =
    rmdir_lem binary engine engine-Documented engine-Reliable around closed b'/' (b'f' ∷ [])
      server-IsTree_around

abbrev path_d : Bytes
path_d = b'/' ∷ b'd' ∷ []

dirname_d : util_dirname path_d dir_size ≡ b'/' ∷ []
unfolding util_dirname dirname strlcpy string_of copy_loop
dirname_d = refl

id_pos : 0 < (tables_of binary engine engine-Documented closed.conn).next_file
id_pos = rw (tables_of-engine server) (omega arith)

mkdir_lem_example :
    (at passed : ℕ) × (left_by binary engine engine-Documented
        (mkdir engine around path_d 0o755 closed)
      ≡ made binary around path_d 0o755 at passed
          (tables_of binary engine engine-Documented server)
          idle_reclaimer
          (find_below binary
            (tables_of binary engine engine-Documented server)
            ([] ∷ tokens [])
            (some 0)))
mkdir_lem_example =
    mkdir_lem binary engine engine-Documented engine-Reliable around closed path_d 0o755 b'/' []
      dirname_d server-IsTree_around id_pos
