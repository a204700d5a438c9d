-- ===== src/Store/Content/Seek.antt =====
-- The blocks from an index on, of a packed file, and what they hold.

use myfs.Base.{
  ℕ, zero, suc, ◌+◌, ◌*◌, ◌≤◌, ◌≡◌, refl, sym, ◌∙◌, ap, List, [], ◌∷◌, ◌++◌, length, drop,
  drop-append_le, drop-ge, drop-drop, length-append, arith,
}
use myfs.Sql.Tables.{Block, from_index}
use myfs.Store.Content.{content_of, Packed}

pub Packed-tail : (i : ℕ) (b : Block) (r : List Block) → Packed i (b ∷ r) → Packed (suc i) r
Packed-tail i b [] h = tt
Packed-tail i b (c ∷ r) h = h.2

pub Packed-drop : (i n : ℕ) (bs : List Block) → Packed i bs → Packed (i + n) (drop n bs)
Packed-drop i zero bs h = let e : i + 0 ≡ i = omega arith in rw e h
Packed-drop i (suc n) [] h = tt
Packed-drop i (suc n) (b ∷ r) h =
    let e : i + suc n ≡ suc i + n = omega arith in
    rw e (Packed-drop (suc i) n r (Packed-tail i b r h))

from_index-all : (i k : ℕ) (bs : List Block) → Packed i bs → k ≤ i → from_index k bs ≡ bs
from_index-all i k [] h le = refl
from_index-all i k (b ∷ []) h le = ground arith
from_index-all i k (b ∷ c ∷ r) h le =
    ground (arith, from_index-all (suc i) k (c ∷ r) h.2 (omega arith))

pub from_index-drop :
    (i k n : ℕ) (bs : List Block) → Packed i bs → k ≡ i + n → from_index k bs ≡ drop n bs
from_index-drop i k zero bs h e = from_index-all i k bs h (omega arith)
from_index-drop i k (suc n) [] h e = refl
from_index-drop i k (suc n) (b ∷ []) h e =
    let none_left : drop {A = Block} n [] ≡ [] = drop-ge n [] (omega arith) in
    ground (arith, none_left)
from_index-drop i k (suc n) (b ∷ c ∷ r) h e =
    ground (arith, from_index-drop (suc i) k n (c ∷ r) h.2 (omega arith))

pub content_of-drop :
    (i n : ℕ) (bs : List Block)
    → Packed i bs
    → content_of (drop n bs) ≡ drop (4096 * n) (content_of bs)
content_of-drop i zero bs h = refl
content_of-drop i (suc n) [] h = sym (drop-ge (4096 * suc n) [] (omega arith))
content_of-drop i (suc n) (b ∷ []) h =
    ap content_of (drop-ge n [] (omega arith))
    ∙ sym (drop-ge (4096 * suc n) (b.bytes ++ []) (omega (arith, length-append b.bytes [])))
content_of-drop i (suc n) (b ∷ c ∷ r) h =
    let e : 4096 * suc n ≡ length b.bytes + 4096 * n = omega arith in
    content_of-drop (suc i) n (c ∷ r) h.2
    ∙ sym (
        rw (e, drop-drop (length b.bytes) (4096 * n) (b.bytes ++ content_of (c ∷ r)))
          (ap (drop (4096 * n)) (
            drop-append_le (length b.bytes) b.bytes (content_of (c ∷ r)) (omega arith)
            ∙ ap (λ x. x ++ content_of (c ∷ r)) (drop-ge (length b.bytes) b.bytes (omega arith)))))
