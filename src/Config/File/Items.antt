-- ===== src/Config/File/Items.antt =====
-- A configuration file that is written line by line, and how it is read.
use myfs.Base.{
  ℕ, zero, suc, ◌+◌, ◌≤◌, ◌<◌, ◌≡◌, refl, ap, sym, ◌∙◌, Bool, true, false, Option, none, some, List,
  [], ◌∷◌, ◌++◌, append_assoc, Bytes, ◌==◌, length, length-append, All, arith,
}
use myfs.Config.Line.{lines, line_max, config_trim, strtok_r}
use myfs.Config.Line.Trim.{
  IsWithout, IsLeftTrimmed, IsRightTrimmed, lines-append, string_of-append, config_trim-append,
  config_trim-cons, IsRightTrimmed-append, IsLeftTrimmed-append, strtok_r-append, strtok_r_lem,
}
use myfs.Config.{Config}
use myfs.Config.File.{
  State, is_ignored, split_pair, take_pair, take_line, take_lines, config_read_file,
}

-- A line of the file, without its end: `# text`, nothing, `key =`, or `key = value`.
pub data Item : Type 0 where
  comment : Bytes → Item
  blank : Item
  unset : Bytes → Item
  setting : Bytes → Bytes → Item

abbrev pub text_of : Item → Bytes
text_of (comment text) = b'#' ∷ text
text_of blank = []
text_of (unset key) = key ++ b' ' ∷ b'=' ∷ []
text_of (setting key value) = key ++ b' ' ∷ b'=' ∷ b' ' ∷ value

unfoldable pub file_text : List Item → Bytes
file_text [] = []
file_text (item ∷ items) = text_of item ++ b'\n' ∷ file_text items

-- Texts that fit in a line.
abbrev pub IsText : Bytes → Type 0
IsText s = IsWithout b'\n' s × IsWithout 0 s

pub record IsValue (value : Bytes) : Type 0 where
  pub left : IsLeftTrimmed value
  pub right : IsRightTrimmed value
  pub text : IsText value

pub record IsKey (key : Bytes) : Type 0 where
  pub value : IsValue key
  pub no_sign : IsWithout b'=' key
  pub no_comment : IsWithout b'#' key

abbrev pub Fits : Item → Type 0
Fits (comment text) = IsText text × (length text < 510)
Fits blank = Unit
Fits (unset key) = IsKey key × (length key < 500)
Fits (setting key value) = IsKey key × IsValue value × (length key + length value < 500)

IsWithout-append : (b : ℕ) (x y : Bytes) → IsWithout b x → IsWithout b y → IsWithout b (x ++ y)
IsWithout-append b [] y h h' = h'
IsWithout-append b (a ∷ x) y h h' = (h.0, IsWithout-append b x y h.1 h')

text_of-IsText : (item : Item) → Fits item → IsText (text_of item)
text_of-IsText (comment text) h = ((refl, h.0.0), (refl, h.0.1))
text_of-IsText blank h = (tt, tt)
text_of-IsText (unset key) h = (
  IsWithout-append b'\n' key _ h.0.value.text.0 (refl, (refl, tt)),
  IsWithout-append 0 key _ h.0.value.text.1 (refl, (refl, tt)),
)
text_of-IsText (setting key value) h = (
  IsWithout-append b'\n' key _ h.0.value.text.0 (refl, (refl, (refl, h.1.text.0))),
  IsWithout-append 0 key _ h.0.value.text.1 (refl, (refl, (refl, h.1.text.1))),
)

text_of-length : (item : Item) → Fits item → length (text_of item) < line_max
text_of-length (comment text) h = omega arith
text_of-length blank h = omega arith
text_of-length (unset key) h = omega (arith, length-append key (b' ' ∷ b'=' ∷ []))
text_of-length (setting key value) h = omega (arith, length-append key (b' ' ∷ b'=' ∷ b' ' ∷ value))

module _ {H : Type 0} {W : Type 0}
    (call : H → Bytes → Bytes → List (Config H) × W → Bool × (List (Config H) × W)) where
  -- What the settings do, one after another.
  abbrev pub apply_item : Item → Bool × State call → Bool × State call
  apply_item (setting key value) r = take_pair call key value r
  apply_item _ r = r

  abbrev pub apply_items : List Item → Bool × State call → Bool × State call
  apply_items [] r = r
  apply_items (item ∷ items) r = apply_items items (apply_item item r)

  take_trimmed :
      (line : Bytes) (c : ℕ) (rest : Bytes) (r : Bool × State call)
      → config_trim line ≡ c ∷ rest
      → (c == b'#') ≡ false
      → take_line call line r ≡ split_pair call (c ∷ rest) r
  unfolding take_line is_ignored
  take_trimmed line c rest r e h = rw (take_line, e, h) refl

  -- A line with a sign: it is split there.
  split_sign :
      (a : ℕ) (k value : Bytes) (r : Bool × State call)
      → IsWithout b'=' (a ∷ k)
      → split_pair call ((a ∷ k) ++ b' ' ∷ b'=' ∷ value) r ≡ (elim (strtok_r b'\n' value) [
        | none ↦ r
        | some (v, _) ↦ take_pair call (config_trim (a ∷ k ++ b' ' ∷ [])) (config_trim v) r
      ])
  unfolding split_pair
  split_sign a k value r h =
      let found : strtok_r b'=' ((a ∷ k) ++ b' ' ∷ b'=' ∷ value)
          ≡ some (a ∷ k ++ b' ' ∷ [], value) =
        ap (strtok_r b'=') (sym (append_assoc (a ∷ k) (b' ' ∷ []) (b'=' ∷ value)))
        ∙ strtok_r-append b'=' a (k ++ b' ' ∷ []) value
            (IsWithout-append b'=' (a ∷ k) (b' ' ∷ []) h (refl, tt)) in
      rw (split_pair, found) refl

  take_line-text_of :
      (item : Item) (r : Bool × State call)
      → Fits item
      → take_line call (text_of item ++ b'\n' ∷ []) r ≡ apply_item item r
  unfolding take_line is_ignored config_trim
  take_line-text_of (comment text) r h = refl
  take_line-text_of blank r h = refl
  take_line-text_of (unset []) r h = absurd h.0.value.left
  take_line-text_of (unset (a ∷ k)) r h =
      take_trimmed (((a ∷ k) ++ b' ' ∷ b'=' ∷ []) ++ b'\n' ∷ []) a (k ++ b' ' ∷ b'=' ∷ []) r
        (config_trim-append ((a ∷ k) ++ b' ' ∷ b'=' ∷ []) b'\n'
          (IsLeftTrimmed-append (a ∷ k) (b' ' ∷ b'=' ∷ []) h.0.value.left)
          (IsRightTrimmed-append (a ∷ k) (b' ' ∷ b'=' ∷ []) refl) refl)
        h.0.no_comment.0
      ∙ split_sign a k [] r h.0.no_sign
  take_line-text_of (setting [] value) r h = absurd h.0.value.left
  take_line-text_of (setting (a ∷ k) value) r h =
      take_trimmed (((a ∷ k) ++ b' ' ∷ b'=' ∷ b' ' ∷ value) ++ b'\n' ∷ []) a
        (k ++ b' ' ∷ b'=' ∷ b' ' ∷ value) r
        (config_trim-append ((a ∷ k) ++ b' ' ∷ b'=' ∷ b' ' ∷ value) b'\n'
          (IsLeftTrimmed-append (a ∷ k) (b' ' ∷ b'=' ∷ b' ' ∷ value) h.0.value.left)
          (IsRightTrimmed-append (a ∷ k) (b' ' ∷ b'=' ∷ b' ' ∷ value)
            (IsRightTrimmed-append (b' ' ∷ b'=' ∷ b' ' ∷ []) value h.1.right))
          refl)
        h.0.no_comment.0
      ∙ split_sign a k (b' ' ∷ value) r h.0.no_sign
      ∙ ap with_value (strtok_r_lem b'\n' b' ' value (refl, h.1.text.0))
      ∙ (λ i.
          take_pair call (config_trim-append (a ∷ k) b' ' h.0.value.left h.0.value.right refl i)
            (config_trim-cons value b' ' h.1.left h.1.right refl i) r)
    where
      with_value : Option (Bytes × Bytes) → Bool × State call
      with_value o = elim o [
        | none ↦ r
        | some (v, _) ↦ take_pair call (config_trim (a ∷ k ++ b' ' ∷ [])) (config_trim v) r
      ]

  take_lines-file_text :
      (fuel : ℕ) (items : List Item) (r : Bool × State call)
      → length items ≤ fuel
      → All Fits items
      → take_lines call (lines fuel (file_text items)) r ≡ apply_items items r
  unfolding take_lines file_text lines
  take_lines-file_text zero [] r le h = refl
  take_lines-file_text (suc fuel) [] r le h = refl
  take_lines-file_text zero (item ∷ items) r le h = absurd (omega arith)
  take_lines-file_text (suc fuel) (item ∷ items) r le h =
      let text = text_of-IsText item h.0 in
      rw (lines-append fuel (text_of item) (file_text items) text.0 (text_of-length item h.0)) (
        ap (λ l. take_lines call (lines fuel (file_text items)) (take_line call l r))
          (string_of-append (text_of item) text.1)
        ∙ ap (λ x. take_lines call (lines fuel (file_text items)) x) (take_line-text_of item r h.0)
        ∙ take_lines-file_text fuel items (apply_item item r) (omega arith) h.1)

  file_text-length : (items : List Item) → length items ≤ length (file_text items)
  unfolding file_text
  file_text-length [] = omega arith
  file_text-length (item ∷ items) =
      omega (arith, length-append (text_of item) (b'\n' ∷ file_text items), file_text-length items)

  -- A file of lines that fit is read as its settings one after another, each with the key and the
  -- value that were written; comments, blank lines and keys without a value change nothing.
  pub config_read_file-file_text :
      (items : List Item) (s : State call)
      → All Fits items
      → config_read_file call (some (file_text items)) s ≡ apply_items items (true, s)
  unfolding config_read_file
  config_read_file-file_text items s h =
      take_lines-file_text (length (file_text items)) items (true, s) (file_text-length items) h
