-- ===== src/Main/Run.antt =====
-- `main` of src/myfs/main.c, from the parameters on.
pub mod Order
use myfs.Base.{
  ℕ, Bool, true, false, ◌&&◌, Option, none, some, List, [], ◌∷◌, ◌++◌, Bytes, codes, if◌then◌else◌,
}
use myfs.Config.{config_get}
use myfs.Config.File.{config_read_file}
use myfs.Config.Args.{config_read_command_line}
use myfs.Main.{Handler, World, State, call, check_config, fargs_create, confirm_config}

-- The calls of `main` that start and stop the parts of the program, in order.
pub data Call : Type 0 where
  myfs_connect reclaimer_start : Call
  fuse_main : List Bytes → Call
  myfs_disconnect reclaimer_stop reclaimer_free config_free log_free mysql_library_end : Call

-- What `main` does not decide: the content of the files (`none` where one cannot be opened), the
-- answer to the prompt, and the results of the parts.
pub record Results : Type 0 where
  pub file : Bytes → Option Bytes
  pub answer : Bytes
  pub connected : Bool
  pub reclaiming : Bool
  pub fuse : ℕ

-- config_get returns NULL where there is no such parameter, and fopen of NULL fails.
abbrev pub file_at : (Bytes → Option Bytes) → Option Bytes → Option Bytes
file_at file none = none
file_at file (some path) = file path

unfoldable pub read_config : List Bytes → (Bytes → Option Bytes) → State → Bool × State
unfolding config_read_command_line config_read_file check_config config_get
read_config args file s =
    let (first, s1) = config_read_command_line call args true s in
    elim first [
      | false ↦ (false, s1)
      | true ↦
          let (second, s2) =
            config_read_file call (file_at file (config_get (codes "config_file") s1.0)) s1 in
          elim second [
            | false ↦ (false, s2)
            | true ↦
                let (third, s3) = config_read_command_line call args false s2 in
                (third && check_config s3.0, s3)
          ]
    ]

-- The label `done`.
abbrev pub stop_all : List Call
stop_all =
    myfs_disconnect ∷ reclaimer_stop ∷ reclaimer_free ∷ config_free ∷ log_free ∷ mysql_library_end
    ∷ []

-- The exit code, and the calls. `name` is argv[0].
unfoldable pub main : Bytes → List Bytes → Results → State → ℕ × List Call
unfolding read_config confirm_config fargs_create
main name args results s =
    let (success, s') = read_config args results.file s in
    if success
    then (if confirm_config results.answer
        then (if results.connected
            then (if results.reclaiming
                then (
                  results.fuse,
                  myfs_connect ∷ reclaimer_start ∷ fuse_main (fargs_create name s'.0) ∷ stop_all,
                )
                else (3, myfs_connect ∷ reclaimer_start ∷ stop_all))
            else (2, myfs_connect ∷ stop_all))
        else (1, stop_all))
    else (1, stop_all)
