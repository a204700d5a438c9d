-- ===== src/Store/Content/Packed.antt =====
-- Lists of packed blocks: how many bytes they hold, what a block at their end does, and the parts
-- that they have, all blocks but the last and the last.
use myfs.Base.{
  ℕ, suc, ◌+◌, ◌*◌, ◌≤◌, ◌<◌, ◌≡◌, refl, ap, ◌⊎◌, inl, inr, List, [], ◌∷◌, ◌++◌, length,
  length-append, append_assoc, append-nil, arith,
}
use myfs.Sql.Tables.{Block, last, place_block}
use myfs.Store.Content.{content_of, Packed}

-- All blocks are full.
abbrev pub IsAligned : List Block → Type 0
IsAligned bs = length (content_of bs) ≡ 4096 * length bs

pub content_of-append :
    (bs cs : List Block) → content_of (bs ++ cs) ≡ content_of bs ++ content_of cs
content_of-append [] cs = refl
content_of-append (b ∷ r) cs =
    let ih = content_of-append r cs in
    let e = append_assoc b.bytes (content_of r) (content_of cs) in cc (ih, e)

pub content_of-snoc :
    (bs : List Block) (b : Block) → content_of (bs ++ b ∷ []) ≡ content_of bs ++ b.bytes
content_of-snoc bs b = let e = append-nil b.bytes in cc (content_of-append bs (b ∷ []), e)

pub length-content_of :
    (i : ℕ) (bs : List Block)
    → Packed i bs
    → (length (content_of bs) ≤ 4096 * length bs)
      × (4096 * length bs ≤ length (content_of bs) + 4095)
length-content_of i [] h = omega arith
length-content_of i (b ∷ []) h = omega (arith, length-append b.bytes [])
length-content_of i (b ∷ c ∷ r) h =
    omega (arith, length-append b.bytes (content_of (c ∷ r)), length-content_of (suc i) (c ∷ r) h.2)

pub place_block-last :
    (i : ℕ) (b : Block) (bs : List Block)
    → Packed i bs
    → b.index ≡ i + length bs
    → place_block b bs ≡ bs ++ b ∷ []
place_block-last i b [] h e = refl
place_block-last i b (c ∷ []) h e = ground arith
place_block-last i b (c ∷ d ∷ r) h e =
    ground (arith, place_block-last (suc i) b (d ∷ r) h.2 (omega arith))

pub Packed-snoc :
    (i : ℕ) (b : Block) (bs : List Block)
    → Packed i bs
    → IsAligned bs
    → b.index ≡ i + length bs
    → 0 < length b.bytes
    → length b.bytes ≤ 4096
    → Packed i (bs ++ b ∷ [])
Packed-snoc i b [] h a e p q = omega arith
Packed-snoc i b (c ∷ []) h a e p q = omega (arith, length-append c.bytes [])
Packed-snoc i b (c ∷ d ∷ r) h a e p q =
    let l = length-append c.bytes (content_of (d ∷ r)) in
    (h.0, h.1, Packed-snoc (suc i) b (d ∷ r) h.2 (omega arith) (omega arith) p q)

-- What is packed at its end.
pub record Ends (i : ℕ) (bs : List Block) (b : Block) : Type 0 where
  pub packed : Packed i bs
  pub aligned : IsAligned bs
  pub index : b.index ≡ i + length bs
  pub some_bytes : 0 < length b.bytes
  pub fits : length b.bytes ≤ 4096

pub Packed-Ends : (i : ℕ) (bs : List Block) (b : Block) → Packed i (bs ++ b ∷ []) → Ends i bs b
Packed-Ends i [] b h = omega arith
Packed-Ends i (c ∷ []) b h = omega (arith, length-append c.bytes [])
Packed-Ends i (c ∷ d ∷ r) b h =
    let e = Packed-Ends (suc i) (d ∷ r) b h.2 in
    record {
      packed = (h.0, h.1, e.packed);
      aligned = omega (arith, length-append c.bytes (content_of (d ∷ r)), e.aligned);
      index = omega (arith, e.index);
      some_bytes = e.some_bytes;
      fits = e.fits;
    }

-- All blocks but the last.
abbrev pub front : List Block → List Block
front [] = []
front (b ∷ []) = []
front (b ∷ c ∷ r) = b ∷ front (c ∷ r)

pub front-last : (b : Block) (bs : List Block) → last bs ≡ b ∷ [] → bs ≡ front bs ++ b ∷ []
front-last b [] h = cc
front-last b (c ∷ []) h = h
front-last b (c ∷ d ∷ r) h = ap (λ t. c ∷ t) (front-last b (d ∷ r) h)

pub last-nil : (bs : List Block) → last bs ≡ [] → bs ≡ []
last-nil [] h = refl
last-nil (c ∷ []) h = h
last-nil (c ∷ d ∷ r) h = cc (last-nil (d ∷ r) h)

pub last-cases : (bs : List Block) → (last bs ≡ []) ⊎ ((b : Block) × (last bs ≡ b ∷ []))
last-cases [] = inl refl
last-cases (b ∷ []) = inr (b, refl)
last-cases (b ∷ c ∷ r) = last-cases (c ∷ r)
