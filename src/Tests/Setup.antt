-- ===== src/Tests/Setup.antt =====
-- The set-up of a database at concrete inputs.
use myfs.Base.{
  ◌≡◌, refl, Bool, true, false, not, none, some, List, [], ◌∷◌, Bytes, codes, same_text, take,
  arith, length,
}
use myfs.Config.Number.{pos, negsuc}
use myfs.Config.{config_get_int}
use myfs.Config.File.{config_read_file}
use myfs.Main.{call}
use myfs.Main.Defaults.{configs}
use myfs.Create.{Params}
use myfs.Create.Sql.{sql_database}
use myfs.Create.ConfigFile.{config_text}
use myfs.Config.File.Fitting.{is_answer}
use myfs.Create.ReadBack.{IsAnswered, IsReadBack, config_read_file-config_text}
use myfs.Create.Prompt.{Found, create_run_prompt}
use myfs.Create.Prompt.Checks.{IsReady}
use myfs.Create.Prompt.Ready.{create_run_prompt-IsReady}
use myfs.Create.Database.{Setup, create_from}
use myfs.Create.Database.Cleanup.{IsDropSent, create_from-file, create_from-IsDropSent}
use myfs.Create.Run.{create_run}
use myfs.Create.Run.Success.{create_run-success}
use myfs.Tests.Settings.{start, plain}

abbrev answers : Params
answers = record {
  config_path = codes "/etc/m.conf";
  mariadb_host = codes "db";
  mariadb_user_root = codes "root";
  mariadb_user = codes "myfs";
  mariadb_password_root = [];
  mariadb_password1 = [];
  mariadb_password2 = [];
  mariadb_user_host = codes "%";
  mariadb_database = codes "myfs";
  mariadb_port = codes "3306";
  mount = codes "/mnt";
  user = codes "ann";
  group = codes "staff";
  create_database_user = false;
  config_created = false;
  database_created = false;
}

-- The answers to the prompts: the defaults, and a new user for the database.
abbrev given : List Bytes
given =
    let keep : Bytes = b'\n' ∷ [] in
    keep
    ∷ keep
    ∷ keep
    ∷ keep
    ∷ keep
    ∷ keep
    ∷ keep
    ∷ codes "s"
    ∷ codes "y"
    ∷ keep
    ∷ keep
    ∷ codes "p"
    ∷ codes "p"
    ∷ keep
    ∷ codes "y"
    ∷ []

abbrev fresh : Found
fresh = record {
  exists = λ path. false;
  writable = λ path. true;
  user_exists = λ name. true;
  group_exists = λ name. true;
  directory = λ path. some true;
  made = λ path. false;
  connected = λ host user password port. true;
  database_user_exists = λ user host. some false;
  database_exists = λ name. some false;
}

create_run_prompt-IsReady_example : IsReady fresh (create_run_prompt fresh given answers).1
unfolding create_run_prompt
create_run_prompt-IsReady_example = create_run_prompt-IsReady fresh given answers refl

-- A server that keeps the queries, and refuses those that begin as the text does.
abbrev refusing : Bytes → Bytes → List Bytes → Bool × List Bytes
refusing prefix query s = (not (same_text (take (length prefix) query) prefix), query ∷ s)

abbrev begun : Setup (List Bytes)
begun = record { params = answers; server = []; file = none }

create_from-file_example :
    (create_from (refusing (codes "USE")) true true true (pos 1) (pos 2) begun).1.file ≡ none
unfolding create_from sql_database
create_from-file_example =
    create_from-file (refusing (codes "USE")) true true (pos 1) (pos 2) begun refl refl

create_from-IsDropSent_example :
    IsDropSent
      (refusing (codes "USE"))
      answers
      (create_from (refusing (codes "USE")) true true true (pos 1) (pos 2) begun).1.server
unfolding create_from sql_database
create_from-IsDropSent_example =
    create_from-IsDropSent (refusing (codes "USE")) true (pos 1) (pos 2) begun refl refl

abbrev accepting : Bytes → List Bytes → Bool × List Bytes
accepting query s = (true, query ∷ s)

create_run-success_example :
    let u : Setup (List Bytes) =
      (create_from accepting true true true (negsuc 0) (negsuc 0) (record {
        params =
            (create_run_prompt fresh given (record answers {
              config_path = codes "/etc/myfs.d/myfs.conf";
              mariadb_host = codes "127.0.0.1";
              mount = codes "/mnt/myfs";
            })).1;
        server = [];
        file = none;
      })).1 in
    IsReady fresh u.params
    × (u.file
        ≡ some (
            config_text
              (config_get_int (codes "failed_query_retry_count") plain)
              (config_get_int (codes "failed_query_retry_wait") plain)
              u.params))
unfolding create_run create_from configs
create_run-success_example = create_run-success accepting fresh true true given plain [] none refl

answered : IsAnswered answers
unfolding is_answer
answered = record { database = refl; host = refl; port = refl; user = refl; mount = refl }

config_read_file-config_text_example :
    let r =
      config_read_file call
        (some (config_text (pos 3) (pos 10) answers))
        (configs (codes "ann") (codes "staff"), start) in
    (r.0 ≡ true) × IsReadBack (pos 3) (pos 10) answers r.1.0
config_read_file-config_text_example =
    config_read_file-config_text (pos 3) (pos 10) answers (codes "ann") (codes "staff") start
      (omega arith) (omega arith) answered
