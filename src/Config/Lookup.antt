-- ===== src/Config/Lookup.antt =====
-- What is read back of the parameters that are set.
use myfs.Base.{
  ◌≡◌, ◌<◌, ◌⊎◌, inl, inr, none, Bool-cases, All, refl, sym, ◌∙◌, Bool, true, false, ◌&&◌, ◌||◌,
  some, List, [], ◌∷◌, Bytes, same_text, same_text_refl, same_text_sound, if◌then◌else◌, arith,
}
use myfs.Config.Number.{ℤ, print_int}
use myfs.Config.Number.RoundTrip.{magnitude, pow10, atoi-print_int}
use myfs.Config.{
  is_found, config_find, config_get_int, config_set_int, Config, config_set, config_get,
}

-- Two names that a third is the same as are the same.
same_both : (a k j : Bytes) → same_text a k ≡ true → same_text a j ≡ true → same_text k j ≡ true
same_both a k j h h' =
    let e : k ≡ j = sym (same_text_sound a k h) ∙ same_text_sound a j h' in rw e (same_text_refl j)

same_one : (a k j : Bytes) → same_text a k ≡ true → same_text k j ≡ true → same_text a j ≡ true
same_one a k j h h' = let e : k ≡ j = same_text_sound k j h' in rw (← e) h

same_back : (a k j : Bytes) → same_text a j ≡ true → same_text k j ≡ true → same_text a k ≡ true
same_back a k j h h' = let e : k ≡ j = same_text_sound k j h' in rw e h

module _ {H : Type 0} where
  -- Whether there is a parameter of that name.
  abbrev pub is_named : Bytes → List (Config H) → Bool
  is_named k [] = false
  is_named k (config ∷ configs) = same_text config.name k || is_named k configs

  config_set-is_named :
      (k value : Bytes) (configs : List (Config H))
      → (config_set k value configs).0 ≡ is_named k configs
  unfolding config_set is_found config_find
  config_set-is_named k value [] = refl
  config_set-is_named k value (config ∷ configs) = elim (Bool-cases (same_text config.name k)) [
    | inl same ↦ rw (config_set, same) refl
    | inr other ↦ rw (config_set, other) (config_set-is_named k value configs)
  ]

  set_get :
      (k j value : Bytes) (configs : List (Config H))
      → config_get j (config_set k value configs).1 ≡ (
          if same_text k j && (config_set k value configs).0
          then some value
          else config_get j configs)
  unfolding config_get config_set
  set_get k j value [] = ground arith
  set_get k j value (config ∷ configs) = ground (
    arith,
    set_get k j value configs,
    same_both config.name k j,
    same_one config.name k j,
    same_back config.name k j,
  )

  -- Setting a parameter succeeds exactly where there is one of that name; then that name gives the
  -- value that was set, and every other name, or every name where there is none, what it gave before.
  pub config_get-config_set :
      (k j value : Bytes) (configs : List (Config H))
      → ((config_set k value configs).0 ≡ is_named k configs)
        × (config_get j (config_set k value configs).1
            ≡ (if same_text k j && is_named k configs then some value else config_get j configs))
  config_get-config_set k j value configs = (
    config_set-is_named k value configs,
    rw (← config_set-is_named k value configs) (set_get k j value configs),
  )

  -- An integer of at most ten digits that a parameter is set to is read back, where there is a
  -- parameter of that name.
  pub config_get_int-config_set_int :
      (k : Bytes) (z : ℤ) (configs : List (Config H))
      → magnitude z < pow10 10
      → (config_set_int k z configs).0 ≡ true
      → config_get_int k (config_set_int k z configs).1 ≡ z
  unfolding config_get_int config_set_int
  config_get_int-config_set_int k z configs small found =
      let read : config_get k (config_set k (print_int z) configs).1 ≡ some (print_int z) =
        set_get k k (print_int z) configs ∙ rw (same_text_refl k, found) refl in
      rw (config_get_int, read) (atoi-print_int z small)

  -- What is read of a list all of whose parameters have a property: nothing, or the value of a
  -- parameter of that name that has it.
  pub config_get-All :
      (P : Config H → Type 0) (name : Bytes) (configs : List (Config H))
      → All P configs
      → (config_get name configs ≡ none)
        ⊎ ((c : Config H) × P c
            × (same_text c.name name ≡ true)
            × (config_get name configs ≡ c.value))
  unfolding config_get config_find
  config_get-All P name [] h = inl refl
  config_get-All P name (config ∷ configs) h = elim (Bool-cases (same_text config.name name)) [
    | inl same ↦ inr (config, h.0, same, rw same refl)
    | inr other ↦ rw other (config_get-All P name configs h.1)
  ]

  pub config_set-config_find :
      (k value : Bytes) (configs : List (Config H)) (c : Config H)
      → config_find k configs ≡ some c
      → (config_set k value configs).0 ≡ true
  unfolding config_set is_found
  config_set-config_find k value configs c h = rw (config_set, h) refl
