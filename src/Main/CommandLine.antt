-- ===== src/Main/CommandLine.antt =====
-- The last switch of the command line of src/myfs/main.c.
use mathlib.Core.Path.{subst}
use mathlib.Core.Option.{some-injective}
use myfs.Base.{
  ◌≡◌, refl, sym, ap, ◌∙◌, inl, inr, Bool, true, false, Bool-cases, none, some, Option-cases, List,
  [], ◌∷◌, ◌++◌, Bytes, same_text, same_text_refl, if◌then◌else◌,
}
use myfs.Config.{
  Config, config_find, change_found, config_set, config_set_int, config_set_bool, config_get,
}
use myfs.Config.Number.{atoi}
use myfs.Config.Lookup.{config_get-config_set, config_set-config_find}
use myfs.Config.File.{is_named}
use myfs.Config.Args.{text_help, is_turn, find_switch, take_config, config_read_command_line}
use myfs.Main.{
  Handler, handle_create, handle_print_create_sql, handle_log_stdout, handle_log_syslog,
  handle_reclaimer_level, State, is_level, call,
}

-- The switch is that of a parameter of the name, which has no handler and is read after the file.
pub record IsSwitch (switch name : Bytes) (cs : List (Config Handler)) : Type 0 where
  pub config : Config Handler
  pub found : find_switch call switch cs ≡ some config
  pub named : config.name ≡ name
  pub plain : config.func ≡ none
  pub late : config.priority ≡ false

find_switch-config_set :
    (switch k value : Bytes) (cs : List (Config Handler)) (c : Config Handler)
    → find_switch call switch cs ≡ some c
    → (c' : Config Handler) × (find_switch call switch (config_set k value cs).1 ≡ some c')
      × (c'.name ≡ c.name)
      × (c'.func ≡ c.func)
      × (c'.priority ≡ c.priority)
unfolding find_switch config_set change_found
find_switch-config_set switch k value [] c h = cc
find_switch-config_set switch k value (d ∷ cs) c h =
    elim (Bool-cases (is_named switch d.name_command_line)) [
      | inl here ↦
          let e : d ≡ c = some-injective d c (rw here at h) in
          elim (Bool-cases (same_text d.name k)) [
            | inl same ↦ (
              record d { value = some value },
              rw (same, here) refl,
              ap (λ x. x.name) e,
              ap (λ x. x.func) e,
              ap (λ x. x.priority) e,
            )
            | inr other ↦ (
              d,
              rw (other, here) refl,
              ap (λ x. x.name) e,
              ap (λ x. x.func) e,
              ap (λ x. x.priority) e,
            )
          ]
      | inr beyond ↦ elim (Bool-cases (same_text d.name k)) [
        | inl same ↦ (c, rw (same, beyond) (rw beyond at h), refl, refl, refl)
        | inr other ↦
            let (c', f, n, p, q) = find_switch-config_set switch k value cs c (rw beyond at h) in
            (c', rw (other, beyond) f, n, p, q)
      ]
    ]

config_set-IsSwitch :
    (switch name k value : Bytes) (cs : List (Config Handler))
    → IsSwitch switch name cs
    → IsSwitch switch name (config_set k value cs).1
config_set-IsSwitch switch name k value cs h =
    let (c', f, n, p, q) = find_switch-config_set switch k value cs h.config h.found in
    record { config = c'; found = f; named = n ∙ h.named; plain = p ∙ h.plain; late = q ∙ h.late }

call-IsSwitch :
    (switch name : Bytes) (f : Handler) (k value : Bytes) (s : State)
    → IsSwitch switch name s.0
    → IsSwitch switch name (call f k value s).1.0
unfolding call config_set_bool config_set_int
call-IsSwitch switch name handle_create k value s h = h
call-IsSwitch switch name handle_print_create_sql k value s h = h
call-IsSwitch switch name handle_log_stdout k value s h = config_set-IsSwitch switch name k _ s.0 h
call-IsSwitch switch name handle_log_syslog k value s h = config_set-IsSwitch switch name k _ s.0 h
call-IsSwitch switch name handle_reclaimer_level k value s h =
    elim (Bool-cases (is_level (atoi value))) [
      | inl good ↦ rw good (config_set-IsSwitch switch name k _ s.0 h)
      | inr bad ↦ rw bad h
    ]

take_config-IsSwitch :
    (switch name : Bytes) (c : Config Handler) (value : Bytes) (s : State)
    → IsSwitch switch name s.0
    → IsSwitch switch name (take_config call c value s).1.0
unfolding take_config
take_config-IsSwitch switch name c value s h = elim (Option-cases c.func) [
  | inl plain ↦ rw (take_config, plain) (config_set-IsSwitch switch name c.name value s.0 h)
  | inr (f, e) ↦ rw (take_config, e) (call-IsSwitch switch name f c.name value s h)
]

config_find-find_switch :
    (switch : Bytes) (cs : List (Config Handler)) (c : Config Handler)
    → find_switch call switch cs ≡ some c
    → (d : Config Handler) × (config_find c.name cs ≡ some d)
unfolding find_switch config_find
config_find-find_switch switch [] c h = cc
config_find-find_switch switch (d ∷ cs) c h =
    elim (Bool-cases (is_named switch d.name_command_line)) [
      | inl here ↦
          let e : d ≡ c = some-injective d c (rw here at h) in
          (d, rw (← e) (rw (same_text_refl d.name) refl))
      | inr beyond ↦ elim (Bool-cases (same_text d.name c.name)) [
        | inl same ↦ (d, rw same refl)
        | inr other ↦
            let (d', f) = config_find-find_switch switch cs c (rw beyond at h) in (d', rw other f)
      ]
    ]

-- The pairs of switches and values, as arguments.
abbrev pub arguments : List (Bytes × Bytes) → List Bytes
arguments [] = []
arguments ((switch, value) ∷ pairs) = switch ∷ value ∷ arguments pairs

-- What a pair does when the switches that come after the file are read.
taken : Config Handler → Bytes → State → Bool × State
taken c value s = if is_turn call false c.priority then take_config call c value s else (true, s)

taken_plain :
    (c : Config Handler) (value : Bytes) (s : State)
    → c.func ≡ none
    → c.priority ≡ false
    → taken c value s ≡ (true, ((config_set c.name value s.0).1, s.1))
unfolding taken take_config
taken_plain c value s plain late =
    ap (λ b. if is_turn call false b then take_config call c value s else (true, s)) late
    ∙ rw (take_config, plain) refl

taken-IsSwitch :
    (switch name : Bytes) (c : Config Handler) (value : Bytes) (s : State)
    → IsSwitch switch name s.0
    → IsSwitch switch name (taken c value s).1.0
unfolding taken
taken-IsSwitch switch name c value s h = turned (is_turn call false c.priority)
  where
    turned :
        (b : Bool) → IsSwitch switch name (if b then take_config call c value s else (true, s)).1.0
    turned true = take_config-IsSwitch switch name c value s h
    turned false = h

read_pair :
    (switch value : Bytes) (args : List Bytes) (s : State) (c : Config Handler)
    → same_text switch text_help ≡ false
    → find_switch call switch s.0 ≡ some c
    → config_read_command_line call (switch ∷ value ∷ args) false s ≡ (
        if (taken c value s).0
        then config_read_command_line call args false (taken c value s).1
        else (false, (taken c value s).1))
unfolding config_read_command_line taken
read_pair switch value args s c other found = elim (Bool-cases (taken c value s).0) [
  | inl ok ↦ rw (other, found, ok) refl
  | inr failed ↦ rw (other, found, failed) refl
]

-- Where the reading succeeds, the first switch is no `--help`, and is that of a parameter.
read_known :
    (switch value : Bytes) (args : List Bytes) (s : State)
    → (config_read_command_line call (switch ∷ value ∷ args) false s).0 ≡ true
    → (same_text switch text_help ≡ false)
      × ((c : Config Handler) × (find_switch call switch s.0 ≡ some c))
unfolding config_read_command_line
read_known switch value args s ok = elim (Bool-cases (same_text switch text_help)) [
  | inl help ↦ cc (rw help at ok)
  | inr other ↦ elim (Option-cases (find_switch call switch s.0)) [
    | inl missing ↦ cc (rw (other, missing) at ok)
    | inr found ↦ (other, found)
  ]
]

last_switch :
    (switch name value : Bytes) (s : State)
    → IsSwitch switch name s.0
    → (config_read_command_line call (switch ∷ value ∷ []) false s).0 ≡ true
    → config_get name (config_read_command_line call (switch ∷ value ∷ []) false s).1.0 ≡ some value
unfolding config_read_command_line
last_switch switch name value s h ok =
    let c = h.config in
    let (d, f) = config_find-find_switch switch s.0 c h.found in
    let got : config_get c.name (config_set c.name value s.0).1 ≡ some value =
      let (found, gets) = config_get-config_set c.name c.name value s.0 in
      gets
      ∙ rw (same_text_refl c.name, (sym found ∙ config_set-config_find c.name value s.0 d f))
          refl in
    let read =
      read_pair switch value [] s c (read_known switch value [] s ok).0 h.found
      ∙ ap (λ (r : Bool × State). if r.0 then (true, r.1) else (false, r.1))
          (taken_plain c value s h.plain h.late) in
    ap (λ (r : Bool × State). config_get name r.1.0) read
    ∙ subst (λ n. config_get n (config_set c.name value s.0).1 ≡ some value) h.named got

-- Whatever the parameters have been set to before, by the configuration file or by the switches in
-- front: where the command line is read with success and ends in the switch of a parameter without a
-- handler, that is read after the file, the parameter has the value that stands behind the switch.
pub command_line_lem :
    (pairs : List (Bytes × Bytes)) (switch name value : Bytes) (s : State)
    → IsSwitch switch name s.0
    → (config_read_command_line call (arguments (pairs ++ (switch, value) ∷ [])) false s).0 ≡ true
    → config_get name
        (config_read_command_line call (arguments (pairs ++ (switch, value) ∷ [])) false s).1.0
      ≡ some value
command_line_lem [] switch name value s h ok = last_switch switch name value s h ok
command_line_lem ((first, v) ∷ pairs) switch name value s h ok =
    let args = arguments (pairs ++ (switch, value) ∷ []) in
    let (other, known) = read_known first v args s ok in
    let (c, found) = known in
    let read = read_pair first v args s c other found in
    elim (Bool-cases (taken c v s).0) [
      | inl done ↦
          let e : config_read_command_line call (first ∷ v ∷ args) false s
              ≡ config_read_command_line call args false (taken c v s).1 =
            read ∙ rw done refl in
          ap (λ (r : Bool × State). config_get name r.1.0) e
          ∙ command_line_lem pairs switch name value (taken c v s).1
              (taken-IsSwitch switch name c v s h) (sym (ap (λ (r : Bool × State). r.0) e) ∙ ok)
      | inr failed ↦
          let e : config_read_command_line call (first ∷ v ∷ args) false s
              ≡ (false, (taken c v s).1) =
            read ∙ rw failed refl in
          cc (ap (λ (r : Bool × State). r.0) e)
    ]
