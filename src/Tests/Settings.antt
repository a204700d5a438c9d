-- ===== src/Tests/Settings.antt =====
-- The configuration and the start of the program at concrete inputs.
use myfs.Base.{
  Option, ◌≡◌, refl, true, false, none, some, List, [], ◌∷◌, ◌++◌, Bytes, codes, arith, length,
}
use myfs.Log.{debug}
use myfs.Config.Number.{negsuc, isspace}
use myfs.Config.{Config, config_get, config_set, config_get_int}
use myfs.Config.{config_set_int}
use myfs.Main.{confirm_config}
use myfs.Main.Run.Order.{until_failure}
use myfs.Base.{◌&&◌, if◌then◌else◌}
use myfs.Config.Lookup.{is_named, config_get-config_set, config_get_int-config_set_int}
use myfs.Config.File.{config_read_file}
use myfs.Config.File.Items.{
  Item, comment, blank, setting, file_text, apply_items, config_read_file-file_text,
}
use myfs.Main.{World, call, Handler, fargs_create}
use myfs.Main.Defaults.{configs}
use myfs.Main.Run.{Results, read_config, main, stop_all, myfs_connect, reclaimer_start, fuse_main}
use myfs.Reclaimer.{Level}
use myfs.Reclaimer.Thread.{level_of}
use myfs.Main.Levels.Read.{read_config-level_of}
use myfs.Config.Args.{find_switch, config_read_command_line}
use myfs.Main.CommandLine.{IsSwitch, command_line_lem}
use myfs.Main.Run.Order.{exit_of, main-IsOrdered}

abbrev pub start : World
start = record {
  log = record { severity = debug; to_stdout = true; to_syslog = false };
  created = 0;
  printed = 0;
}

abbrev pub plain : List (Config Handler)
plain = configs (codes "ann") (codes "staff")

config_get-config_set_example :
    ((config_set (codes "mount") (codes "/srv") plain).0 ≡ is_named (codes "mount") plain)
    × (config_get (codes "mount") (config_set (codes "mount") (codes "/srv") plain).1
        ≡ some (codes "/srv"))
unfolding configs
config_get-config_set_example =
    config_get-config_set (codes "mount") (codes "mount") (codes "/srv") plain

abbrev short : List Item
short = comment (codes "m") ∷ blank ∷ setting (codes "mount") (codes "/s") ∷ []

config_read_file-file_text_example :
    config_read_file call (some (file_text short)) (plain, start)
    ≡ apply_items call short (true, (plain, start))
unfolding isspace
config_read_file-file_text_example =
    config_read_file-file_text call short (plain, start)
      (
        ((((refl, tt), (refl, tt)), omega arith)),
        (
          tt,
          (
            (
              record {
                value = record {
                  left = refl;
                  right = refl;
                  text = (
                    (refl, (refl, (refl, (refl, (refl, tt))))),
                    (refl, (refl, (refl, (refl, (refl, tt))))),
                  );
                };
                no_sign = (refl, (refl, (refl, (refl, (refl, tt)))));
                no_comment = (refl, (refl, (refl, (refl, (refl, tt)))));
              },
              record { left = refl; right = refl; text = ((refl, (refl, tt)), (refl, (refl, tt))) },
              omega arith,
            ),
            tt,
          ),
        ),
      )

abbrev outcome : Results
outcome = record {
  file = λ path. none;
  answer = codes "y";
  connected = true;
  reclaiming = false;
  fuse = 0;
}

main-IsOrdered_example :
    let ran = main (codes "myfs") [] outcome (plain, start) in
    let read = read_config [] outcome.file (plain, start) in
    let started =
      if read.0 && confirm_config outcome.answer
      then until_failure (
          (myfs_connect, true)
          ∷ (reclaimer_start, false)
          ∷ (fuse_main (fargs_create (codes "myfs") read.1.0), true)
          ∷ [])
      else [] in
    (ran.1 ≡ started ++ stop_all) × (ran.0 ≡ exit_of (length started) 0)
main-IsOrdered_example = main-IsOrdered (codes "myfs") [] outcome (plain, start)

config_get_int-config_set_int_example :
    config_get_int
      (codes "reclaimer_level")
      (config_set_int (codes "reclaimer_level") (negsuc 1) plain).1
    ≡ negsuc 1
unfolding config_set_int configs
config_get_int-config_set_int_example =
    config_get_int-config_set_int (codes "reclaimer_level") (negsuc 1) plain (omega arith) refl

read_config-level_of_example :
    let file : Bytes → Option Bytes = λ path. some (codes "reclaimer_level = 7\n") in
    (level : Level) × (level_of
        (config_get_int (codes "reclaimer_level") (read_config [] file (plain, start)).1.0)
      ≡ some level)
read_config-level_of_example =
    read_config-level_of [] (λ path. some (codes "reclaimer_level = 7\n")) (codes "ann")
      (codes "staff") start

mount-IsSwitch : IsSwitch (codes "--mount") (codes "mount") plain
unfolding find_switch configs
mount-IsSwitch = record {
  config = record {
    name = codes "mount";
    name_command_line = some (codes "--mount");
    name_config_file = some (codes "mount");
    value = some (codes "/mnt/myfs");
    value_default = some (codes "/mnt/myfs");
    func = none;
    help = none;
    priority = false;
  };
  found = refl;
  named = refl;
  plain = refl;
  late = refl;
}

command_line_lem_example :
    config_get
      (codes "mount")
      (config_read_command_line call
        (codes "--log-stdout" ∷ codes "false" ∷ codes "--mount" ∷ codes "/srv" ∷ [])
        false
        (plain, start)).1.0
    ≡ some (codes "/srv")
unfolding config_read_command_line configs call
command_line_lem_example =
    command_line_lem ((codes "--log-stdout", codes "false") ∷ []) (codes "--mount") (codes "mount")
      (codes "/srv") (plain, start) mount-IsSwitch refl
