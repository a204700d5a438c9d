-- ===== src/Store/Write/Step.antt =====
-- One statement of the loop of `myfs_db_file_write` over the blocks that are there.

use myfs.Base.{
  ℕ, ◌+◌, ◌≤◌, ◌<◌, ◌≡◌, refl, ap, sym, ◌∙◌, Bool, true, List, [], ◌∷◌, ◌++◌, Bytes, length, take,
  drop, length-take, length-drop, append_assoc, append-nil, arith,
}
use myfs.Sql.{Sql, write_block}
use myfs.Sql.Tables.{Tables, Block, Collation, effect, edit_block, with_blocks, splice}
use myfs.Sql.Laws.{Documented}
use myfs.Sql.Steps.{tables_of, tables_after}
use myfs.Store.Content.{content_of, WellFormed, Changed}
use myfs.Store.Content.Packed.{content_of-append}
use myfs.Store.Content.Middle.{blocks-edit_middle, edit_middle-Changed}
use myfs.Store.Write.Overwrite.{overwrite, splice-overwrite, length-overwrite}

module _ (c : Collation) (db : Sql) (d : Documented c db) (g : ℕ) (bytes : Bytes) where
  module _ (written left page_offset : ℕ) (some_left : 0 < left)
      (enough : written + left ≤ length bytes) (s : db.State) (w : WellFormed (tables_of c db d s))
      (pre : List Block) (b : Block) (post : List Block)
      (e : (tables_of c db d s).blocks g ≡ pre ++ b ∷ post) (n : ℕ) (le : n ≤ left)
      (inside : page_offset + n ≤ length b.bytes) where
    abbrev t : Tables
    t = tables_of c db d s

    abbrev new : Bytes
    new = take n (drop written bytes)

    pub length-new : length new ≡ n
    length-new = omega (arith, length-take n (drop written bytes), length-drop written bytes)

    abbrev sent : Bool × db.State
    sent = db.query (write_block b.data_id (page_offset + 1) n new) s

    abbrev f : Bytes → Bytes
    f old = splice (page_offset + 1) n new old

    f_is : f b.bytes ≡ overwrite page_offset new b.bytes
    f_is = splice-overwrite page_offset n new b.bytes length-new (omega arith)

    same : length (f b.bytes) ≡ length b.bytes
    same = ap length f_is ∙ length-overwrite page_offset new b.bytes (omega (arith, length-new))

    module _ (ok : sent.0 ≡ true) where
      now_there : tables_of c db d sent.1 ≡ with_blocks t (edit_block b.data_id f)
      unfolding effect
      now_there =
          tables_after c db d (write_block b.data_id (page_offset + 1) n new) s (λ now v. refl) ok

      pub sent-Changed :
          Changed t
            (tables_of c db d sent.1)
            g
            (content_of pre ++ (overwrite page_offset new b.bytes ++ content_of post))
      sent-Changed = rw (now_there, ← f_is) (edit_middle-Changed t w g pre b post e f same)

      pub sent_files : (tables_of c db d sent.1).files ≡ t.files
      sent_files = ap (λ (u : Tables). u.files) now_there

      pub sent_blocks :
          (tables_of c db d sent.1).blocks g ≡ (pre ++ record b { bytes = f b.bytes } ∷ []) ++ post
      sent_blocks =
          ap (λ (u : Tables). u.blocks g) now_there
          ∙ blocks-edit_middle t w g pre b post e f same
          ∙ sym (append_assoc pre (record b { bytes = f b.bytes } ∷ []) post)

      pub sent_content :
          content_of (pre ++ record b { bytes = f b.bytes } ∷ [])
          ≡ content_of pre ++ overwrite page_offset new b.bytes
      sent_content =
          content_of-append pre (record b { bytes = f b.bytes } ∷ [])
          ∙ ap (λ x. content_of pre ++ x) (append-nil (f b.bytes) ∙ f_is)
