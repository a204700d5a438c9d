-- ===== src/Main/Run/Order.antt =====
-- The order in which `main` of src/myfs/main.c starts and stops the parts of the program.
use myfs.Base.{
  ℕ, zero, suc, ◌≡◌, refl, inl, inr, Bool, true, false, ◌&&◌, if◌then◌else◌, Bool-cases, List, [],
  ◌∷◌, ◌++◌, Bytes, length,
}
use myfs.Main.{State, fargs_create, confirm_config}
use myfs.Main.Run.{
  Call, myfs_connect, reclaimer_start, fuse_main, Results, read_config, stop_all, main,
}

-- The exit code after so many parts have been started, where FUSE gives `fuse`.
abbrev pub exit_of : ℕ → ℕ → ℕ
exit_of zero fuse = 1
exit_of (suc zero) fuse = 2
exit_of (suc (suc zero)) fuse = 3
exit_of (suc (suc (suc n))) fuse = fuse

-- The calls up to the first that fails, and that one.
abbrev pub until_failure : List (Call × Bool) → List Call
until_failure [] = []
until_failure ((call, true) ∷ calls) = call ∷ until_failure calls
until_failure ((call, false) ∷ calls) = call ∷ []

-- Where the parameters have been read and the prompt is confirmed, the program connects to the
-- database, starts the reclaimer and runs FUSE, with the arguments made from the parameters, up to
-- the first of these that fails; else it starts nothing. Then it stops and frees every part. The
-- exit code is 1 if nothing has been started, 2 if the connection was the last, 3 if the reclaimer
-- was, and else that of FUSE.
pub main-IsOrdered :
    (name : Bytes) (args : List Bytes) (results : Results) (s : State)
    → let ran = main name args results s in
      let read = read_config args results.file s in
      let started =
        if read.0 && confirm_config results.answer
        then until_failure (
            (myfs_connect, results.connected)
            ∷ (reclaimer_start, results.reclaiming)
            ∷ (fuse_main (fargs_create name read.1.0), true)
            ∷ [])
        else [] in
      (ran.1 ≡ started ++ stop_all) × (ran.0 ≡ exit_of (length started) results.fuse)
unfolding main
main-IsOrdered name args results s = elim (Bool-cases (read_config args results.file s).0) [
  | inr unread ↦ rw unread (refl, refl)
  | inl read ↦ elim (Bool-cases (confirm_config results.answer)) [
    | inr refused ↦ rw (read, refused) (refl, refl)
    | inl confirmed ↦ elim (Bool-cases results.connected) [
      | inr failed ↦ rw (read, confirmed, failed) (refl, refl)
      | inl connected ↦ elim (Bool-cases results.reclaiming) [
        | inr failed ↦ rw (read, confirmed, connected, failed) (refl, refl)
        | inl reclaiming ↦ rw (read, confirmed, connected, reclaiming) (refl, refl)
      ]
    ]
  ]
]
