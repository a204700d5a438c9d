-- ===== src/Tests/Callbacks.antt =====
-- The theorems on the callbacks, the reclaimer and `swap`, on the small database.
use myfs.Base.{
  ℕ, ◌≡◌, ◌≢◌, refl, true, false, none, some, [], ◌∷◌, Bytes, if◌then◌else◌, length, arith,
}
use myfs.Sql.{done}
use myfs.Sql.Tables.{edit_file}
use myfs.Sql.Steps.{tables_of, saved_of}
use myfs.Store.Kind.{regular}
use myfs.Store.Query.{
  File, file, Host, failed, no_parent, no_more, query_name, query, query_one, file_of_row,
}
use myfs.Store.Meta.{swap}
use myfs.Store.Meta.Swap.{swap_lem}
use myfs.Reclaimer.{Reclaimer, optimistic, general, should_run, notify}
use myfs.Reclaimer.Rounds.{should_run-notify, is_due}
use myfs.Text.Path.{tokens, split_parts}
use myfs.Fs.Context.{Around, Myfs, ok, slot}
use myfs.Fs.Walk.{file_get, walk}
use myfs.Fs.Walk.Finds.{find_below, file_get_lem}
use myfs.Store.Query.One.{found_id}
use myfs.Store.Query.Tree.{IsTree}
use myfs.Fs.Handle.{first_free, install, open_file, open_helper, release_helper}
use myfs.Fs.Handle.Slots.{AllUsed, release_helper-open_helper, open_helper-kept}
use myfs.Fs.Data.{write_file}
use myfs.Fs.Data.Failure.{write_file-kept}
use myfs.Store.Append.{append, append_body, append_last, append_rest}
use myfs.Store.Block.{insert_blocks}
use myfs.Sql.Tables.{effect}
use myfs.Sql.Keys.{accepts}
use myfs.Fs.Data.{store_data}
use myfs.Fs.Context.{eio, err}
use myfs.Store.Query.{stat_of}
use myfs.Fs.Data.Content.{Wrote, write_file_lem}
use myfs.Tests.Engine.{
  engine-Commits, binary, engine, engine-Documented, engine-Reliable, tables_of-engine,
}
use myfs.Tests.Examples.{server, de, server-WellFormed, server-room}

abbrev host : Host
host = record {
  user = [];
  group = [];
  database = [];
  fuse_uid = 1000;
  fuse_gid = 1000;
  user_id = λ _. failed 2;
  group_id = λ _. failed 2;
  username = λ _. failed 2;
  groupname = λ _. failed 2;
}

abbrev pub around : Around
around = record { fuel = 4; host = host; now = 100 }

abbrev pub idle_reclaimer : Reclaimer
idle_reclaimer = record { level = optimistic; last_action = 0; run = false }

abbrev pub path_f : Bytes
path_f = b'/' ∷ b'f' ∷ []

abbrev pub closed : Myfs engine
closed = record { conn = server; files = none ∷ none ∷ []; reclaimer = idle_reclaimer }

abbrev opened : File
opened =
    file 1 (b'f' ∷ []) regular
      (record {
        st_ino = 1;
        st_mode = 0o644;
        st_nlink = 1;
        st_uid = 1000;
        st_gid = 1000;
        st_size = 3;
        st_atime = 0;
        st_mtime = 0;
        st_ctime = 0;
      })
      no_parent no_more

abbrev in_use : Myfs engine
in_use = record closed { files = some opened ∷ [] }

opens : (open_helper engine around path_f false false closed).0 ≡ done (ok 0)
unfolding open_helper first_free file_get walk query_name query query_one file_of_row tokens
    split_parts open_file install
opens = refl

full : (fh : ℕ) → (open_helper engine around path_f false false in_use).0 ≢ done (ok fh)
unfolding open_helper first_free
full fh h = cc

release_helper-open_helper_example :
    (slot closed.files 0 ≡ some none)
    × AllUsed closed.files 0
    × ((release_helper engine around 0 (open_helper engine around path_f false false closed).1).0
        ≡ done (ok tt))
    × ((release_helper engine around 0
          (open_helper engine around path_f false false closed).1).1.files
        ≡ closed.files)
release_helper-open_helper_example =
    release_helper-open_helper engine around path_f false false 0 closed opens

open_helper-kept_example :
    (open_helper engine around path_f false false in_use).1.files ≡ in_use.files
open_helper-kept_example = open_helper-kept engine around path_f false false in_use full

write_file_lem_example :
    Wrote binary engine engine-Documented de 0 opened in_use
      (write_file engine false de 3 0 in_use).0
      (write_file engine false de 3 0 in_use).1
write_file_lem_example =
    write_file_lem binary engine engine-Documented false de 3 0 opened in_use refl refl
      server-WellFormed server-room engine-Commits

swap_lem_example :
    (tables_of binary engine engine-Documented (swap engine 1 0 2 0 server).1 ≡ (
      if (swap engine 1 0 2 0 server).0
      then record (tables_of binary engine engine-Documented server) {
        files =
            edit_file 2
              (λ r. record r { parent_id = 0 })
              (edit_file 1
                (λ r. record r { parent_id = 0 })
                (tables_of binary engine engine-Documented server).files);
      }
      else tables_of binary engine engine-Documented server))
    × ((swap engine 1 0 2 0 server).0 ≡ true
        → saved_of binary engine engine-Documented (swap engine 1 0 2 0 server).1
          ≡ tables_of binary engine engine-Documented (swap engine 1 0 2 0 server).1)
swap_lem_example = swap_lem binary engine engine-Documented 1 0 2 0 server engine-Commits

should_run-notify_example :
    should_run 2000 (notify general 100 idle_reclaimer) ≡ is_due optimistic general 100 2000 false
should_run-notify_example = should_run-notify general 100 2000 idle_reclaimer (omega arith)

-- An open file whose row has gone.
abbrev lost : Myfs engine
lost = record closed {
  files =
      some (file 9 (b'x' ∷ []) regular (record (stat_of opened) { st_size = 0 }) no_parent no_more)
      ∷ [];
}

lost_refused : (write_file engine false de 0 0 lost).0 ≢ done (ok (length de))
unfolding write_file store_data append append_body append_last append_rest insert_blocks accepts
    effect
lost_refused h = cc

write_file-kept_example :
    ((write_file engine false de 0 0 lost).0 ≡ done (err eio))
    × (tables_of binary engine engine-Documented (write_file engine false de 0 0 lost).1.conn
        ≡ tables_of binary engine engine-Documented lost.conn)
    × ((write_file engine false de 0 0 lost).1.files ≡ lost.files)
write_file-kept_example =
    write_file-kept binary engine engine-Documented false de 0 0
      (file 9 (b'x' ∷ []) regular (record (stat_of opened) { st_size = 0 }) no_parent no_more) lost
      refl lost_refused

server-IsTree : IsTree 2 (tables_of binary engine engine-Documented server).files
server-IsTree = rw (tables_of-engine server) (refl, (refl, (refl, tt)))

file_get_lem_example :
    (found_id (file_get engine host 2 path_f true server).0
      ≡ find_below binary
          (tables_of binary engine engine-Documented server)
          ([] ∷ tokens (b'f' ∷ []))
          (some 0))
    × (tables_of binary engine engine-Documented (file_get engine host 2 path_f true server).1
        ≡ tables_of binary engine engine-Documented server)
file_get_lem_example =
    file_get_lem binary engine engine-Documented engine-Reliable host 2 b'/' (b'f' ∷ []) true server
      server-IsTree
