-- ===== src/Icy/Blocks.antt =====
-- `strip_icy` of the tests of src/rpc/mod.rs on one metadata block.
use p2pradio.Prelude.{
  inl, All-append, ℕ, zero, suc, ◌*◌, ◌≡◌, ◌≢◌, refl, sym, ap, ◌∙◌, some, List, [], ◌∷◌, ◌++◌,
  length, replicate, arith, append_assoc, length-append, take-length_append, drop-length_append,
  le→ltb,
}
use p2pradio.Text.{IsScalar, IsText, as_bytes, from_utf8}
use p2pradio.Text.Utf8.{from_utf8-as_bytes}
use p2pradio.Icy.{title_closing, title_opening, push_title, format_title, trim_nul, strip_block}
use p2pradio.Icy.Title.{quoted, quoted-IsText, format_title_read}

trim_nul-zeros : (k : ℕ) → trim_nul (replicate k 0) ≡ []
unfolding trim_nul
trim_nul-zeros zero = refl
trim_nul-zeros (suc k) = rw (trim_nul-zeros k, trim_nul)

trim_nul-last : (t : List ℕ) (c k : ℕ) → c ≢ 0 → trim_nul (t ++ c ∷ replicate k 0) ≡ t ++ c ∷ []
unfolding trim_nul
trim_nul-last [] c k h = rw (trim_nul-zeros k, trim_nul) (ground arith)
trim_nul-last (d ∷ []) c k h = rw (trim_nul-last [] c k h, trim_nul)
trim_nul-last (d ∷ e ∷ t) c k h = rw (trim_nul-last (e ∷ t) c k h, trim_nul)

-- the text of a block ends in `;`, so that trimming removes the padding and no more
trim_nul-quoted : (title : List ℕ) (k : ℕ) → trim_nul (quoted title ++ replicate k 0) ≡ quoted title
unfolding quoted
trim_nul-quoted title k =
    let body = push_title title_opening title ++ 0x27 ∷ [] in
    ap trim_nul (
      append_assoc (push_title title_opening title) title_closing (replicate k 0)
      ∙ sym (append_assoc (push_title title_opening title) (0x27 ∷ []) (b';' ∷ replicate k 0)))
    ∙ trim_nul-last body b';' k (omega arith)
    ∙ append_assoc (push_title title_opening title) (0x27 ∷ []) (b';' ∷ [])

IsText-replicate_zero : (k : ℕ) → IsText (replicate k 0)
IsText-replicate_zero zero = tt
IsText-replicate_zero (suc k) = (inl (omega arith), IsText-replicate_zero k)

strip_block_lem :
    (b : ℕ) (meta rest text : List ℕ)
    → length meta ≡ b * 16
    → from_utf8 meta ≡ some text
    → strip_block (b ∷ (meta ++ rest)) ≡ some (trim_nul text, rest)
strip_block_lem b meta rest text len read =
    unfold strip_block in
    rw (
      ← len,
      le→ltb (length (meta ++ rest)) (length meta) (omega (arith, length-append meta rest)),
      take-length_append,
      drop-length_append,
      read,
    )

-- A block is read back as the quoted title, whatever follows it.
pub strip_block-format_title :
    (title rest : List ℕ)
    → IsText title
    → strip_block (format_title title ++ rest) ≡ some (quoted title, rest)
strip_block-format_title title rest h =
    let (b, k, e, len) = format_title_read title in
    let padded = quoted title ++ replicate k 0 in
    let text : IsText padded =
      All-append IsScalar (quoted title) (replicate k 0) (quoted-IsText title h)
        (IsText-replicate_zero k) in
    rw e (
      strip_block_lem b (as_bytes padded) rest padded len (from_utf8-as_bytes padded text)
      ∙ ap (λ t. some (t, rest)) (trim_nul-quoted title k))
