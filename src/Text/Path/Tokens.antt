-- ===== src/Text/Path/Tokens.antt =====
-- What the parts of a path are.
use myfs.Base.{
  ℕ, ◌≡◌, ◌≢◌, refl, sym, ap, append-nil, ◌∙◌, inl, inr, false, Bool-cases, List, [], ◌∷◌, ◌++◌,
  append_assoc, Bytes, ◌==◌, if◌then◌else◌, All, All-snoc,
}
use myfs.Text.Path.{slash, split_parts, tokens}

abbrev pub IsPlain : ℕ → Type 0
IsPlain c = (c == slash) ≡ false

-- A part of a path: not empty, and without a slash.
abbrev pub IsPart : Bytes → Type 0
IsPart p = (p ≢ []) × All IsPlain p

-- The bytes of a path other than its slashes, and of a list of parts.
abbrev pub plain : Bytes → Bytes
plain [] = []
plain (c ∷ p) = if c == slash then plain p else c ∷ plain p

abbrev pub joined : List Bytes → Bytes
joined [] = []
joined (p ∷ ps) = p ++ joined ps

split_parts-IsPart : (part path : Bytes) → All IsPlain part → All IsPart (split_parts part path)
unfolding split_parts
split_parts-IsPart [] [] h = tt
split_parts-IsPart (c ∷ part) [] h = (((λ e. cc), h), tt)
split_parts-IsPart [] (c ∷ p) h = elim (Bool-cases (c == slash)) [
  | inl slashed ↦ rw (slashed, split_parts) (split_parts-IsPart [] p tt)
  | inr plain_byte ↦ rw (plain_byte, split_parts) (split_parts-IsPart (c ∷ []) p (plain_byte, tt))
]
split_parts-IsPart (d ∷ part) (c ∷ p) h = elim (Bool-cases (c == slash)) [
  | inl slashed ↦ rw (slashed, split_parts) (((λ e. cc), h), split_parts-IsPart [] p tt)
  | inr plain_byte ↦
      rw (plain_byte, split_parts)
        (split_parts-IsPart ((d ∷ part) ++ (c ∷ [])) p (All-snoc IsPlain (d ∷ part) c h plain_byte))
]

split_parts-joined : (part path : Bytes) → joined (split_parts part path) ≡ part ++ plain path
unfolding split_parts
split_parts-joined [] [] = refl
split_parts-joined (c ∷ part) [] = refl
split_parts-joined [] (c ∷ p) = elim (Bool-cases (c == slash)) [
  | inl slashed ↦ rw (slashed, split_parts) (split_parts-joined [] p)
  | inr plain_byte ↦ rw (plain_byte, split_parts) (split_parts-joined (c ∷ []) p)
]
split_parts-joined (d ∷ part) (c ∷ p) = elim (Bool-cases (c == slash)) [
  | inl slashed ↦ rw (slashed, split_parts) (ap (λ x. d ∷ part ++ x) (split_parts-joined [] p))
  | inr plain_byte ↦
      rw (plain_byte, split_parts)
        (split_parts-joined ((d ∷ part) ++ (c ∷ [])) p ∙ append_assoc (d ∷ part) (c ∷ []) (plain p))
]

split_parts-slash :
    (w p rest : Bytes)
    → All IsPlain p
    → w ++ p ≢ []
    → split_parts w (p ++ slash ∷ rest) ≡ (w ++ p) ∷ split_parts [] rest
unfolding split_parts
split_parts-slash [] [] rest h ne = absurd (ne refl)
split_parts-slash (c ∷ w) [] rest h ne =
    ap (λ x. x ∷ split_parts [] rest) (sym (append-nil (c ∷ w)))
split_parts-slash [] (c ∷ p) rest h ne =
    rw (h.0, split_parts) (split_parts-slash (c ∷ []) p rest h.1 (λ e. cc))
split_parts-slash (d ∷ w) (c ∷ p) rest h ne =
    rw (h.0, split_parts)
      (split_parts-slash ((d ∷ w) ++ (c ∷ [])) p rest h.1 (λ e. cc)
        ∙ ap (λ x. x ∷ split_parts [] rest) (append_assoc (d ∷ w) (c ∷ []) p))

split_parts-end : (w p : Bytes) → All IsPlain p → w ++ p ≢ [] → split_parts w p ≡ (w ++ p) ∷ []
unfolding split_parts
split_parts-end [] [] h ne = absurd (ne refl)
split_parts-end (c ∷ w) [] h ne = ap (λ x. x ∷ []) (sym (append-nil (c ∷ w)))
split_parts-end [] (c ∷ p) h ne = rw (h.0, split_parts) (split_parts-end (c ∷ []) p h.1 (λ e. cc))
split_parts-end (d ∷ w) (c ∷ p) h ne =
    rw (h.0, split_parts)
      (split_parts-end ((d ∷ w) ++ (c ∷ [])) p h.1 (λ e. cc)
        ∙ ap (λ x. x ∷ []) (append_assoc (d ∷ w) (c ∷ []) p))

-- The parts of a path are not empty and have no slash, and one after another they are all the bytes
-- of the path that are not slashes. Bytes without a slash are one part, alone or in front of a
-- slash, behind which the parts go on; a slash in front of a path does not matter to its parts.
pub tokens_lem :
    (part path : Bytes)
    → IsPart part
    → All IsPart (tokens path)
      × (joined (tokens path) ≡ plain path)
      × (tokens part ≡ part ∷ [])
      × (tokens (part ++ slash ∷ path) ≡ part ∷ tokens path)
      × (tokens (slash ∷ path) ≡ tokens path)
unfolding tokens split_parts
tokens_lem part path h = (
  split_parts-IsPart [] path tt,
  split_parts-joined [] path,
  split_parts-end [] part h.1 h.0,
  split_parts-slash [] part path h.1 h.0,
  refl,
)
