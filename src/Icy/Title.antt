-- ===== src/Icy/Title.antt =====
-- `format_title` of src/rpc/mod.rs: the size of the block, what it holds, and that it reads back.
use p2pradio.Prelude.{
  length-append, length-replicate, zero, ◌≢◌, All, All-append, false, ℕ, suc, ◌+◌, ◌-◌, ◌*◌, ◌%◌,
  ◌≤◌, ◌<◌, ◌≡◌, refl, sym, ap, ◌∙◌, ◌⊎◌, inl, inr, List, [], ◌∷◌, ◌++◌, ltb, length, take,
  replicate, map, arith, append_assoc, append-nil, take-all, Bool-cases,
}
use p2pradio.Text.{IsScalar, IsText, encode_utf8, is_control, as_bytes, str_len, len_utf8}
use p2pradio.Text.Utf8.{as_bytes-append, str_len-append, str_len-char}
use p2pradio.Icy.{
  title_opening, title_closing, format_title, max_text, clean, push_title, div_ceil, resize,
  block_of,
}

-- What the loop adds is the longest prefix of the cleaned title that leaves room for the closing.
record Pushed (text title result : List ℕ) : Type 0 where
  count : ℕ
  count_le : count ≤ length title
  added : result ≡ text ++ map clean (take count title)
  fits : str_len result + 2 ≤ max_text
  longest :
      (count ≡ length title) ⊎ (max_text < str_len (text ++ map clean (take (suc count) title)) + 2)

Pushed-more :
    (text : List ℕ) (ch : ℕ) (title result : List ℕ)
    → Pushed (text ++ clean ch ∷ []) title result
    → Pushed text (ch ∷ title) result
Pushed-more text ch title result p = record {
  count = suc p.count;
  count_le = omega arith;
  added = p.added ∙ append_assoc text (clean ch ∷ []) _;
  fits = p.fits;
  longest = elim p.longest [ inl e ↦ inl (ap suc e) | inr h ↦ inr (rw append_assoc at h) ];
}

push_title_lem :
    (text title : List ℕ) → str_len text + 2 ≤ max_text → Pushed text title (push_title text title)
unfolding push_title
push_title_lem text [] h = record {
  count = 0;
  count_le = omega arith;
  added = sym (append-nil text);
  fits = h;
  longest = inl refl;
}
push_title_lem text (ch ∷ title) h =
    elim (Bool-cases (ltb max_text (str_len text + len_utf8 (clean ch) + 2))) [
      | inl full ↦ rw full (record {
        count = 0;
        count_le = omega arith;
        added = sym (append-nil text);
        fits = h;
        longest =
            inr (ground (arith, str_len-append text (clean ch ∷ []), str_len-char (clean ch)));
      })
      | inr room ↦ rw room (
          Pushed-more text ch title _ (
            push_title_lem (text ++ clean ch ∷ []) title
              (ground (arith, str_len-append text (clean ch ∷ []), str_len-char (clean ch)))))
    ]

div_ceil_bounds :
    (n : ℕ)
    → n ≤ max_text
    → (div_ceil n 16 ≤ 255) × (n ≤ div_ceil n 16 * 16) × (div_ceil n 16 * 16 < n + 16)
div_ceil_bounds n h = ground arith

resize_longer :
    (n v : ℕ) (xs : List ℕ) → length xs ≤ n → resize n v xs ≡ xs ++ replicate (n - length xs) v
resize_longer n v xs h = rw (take-all n xs h)

-- The block of a text that fits: the number of 16-byte units, the text and its padding.
block_of_lem :
    (text : List ℕ) (b : ℕ)
    → b ≡ div_ceil (str_len text) 16
    → str_len text ≤ max_text
    → block_of text ≡ b ∷ (as_bytes text ++ replicate (b * 16 - str_len text) 0)
unfolding block_of
block_of_lem text b e h = rw (← e) (
    rw small (
      resize_longer (1 + b * 16) 0 (b ∷ as_bytes text) room
      ∙ ap (λ k. b ∷ (as_bytes text ++ replicate k 0)) pad))
  where
    small : b % 256 ≡ b
    small = rw e (omega (arith, div_ceil_bounds (str_len text) h))

    room : length (b ∷ as_bytes text) ≤ 1 + b * 16
    room = rw e (unfold str_len in omega (arith, div_ceil_bounds (str_len text) h))

    pad : 1 + b * 16 - length (b ∷ as_bytes text) ≡ b * 16 - str_len text
    pad = unfold str_len in omega arith

clean_safe : (c : ℕ) → (clean c ≢ 0x27) × (is_control (clean c) ≡ false)
unfolding clean is_control
clean_safe c = (λ e. ground arith, ground arith)

clean-IsScalar : (c : ℕ) → IsScalar c → IsScalar (clean c)
unfolding clean is_control
clean-IsScalar c h = ground arith

All-clean : (t : List ℕ) → All (λ c. (c ≢ 0x27) × (is_control c ≡ false)) (map clean t)
All-clean [] = tt
All-clean (c ∷ t) = (clean_safe c, All-clean t)

clean-IsText : (n : ℕ) (t : List ℕ) → IsText t → IsText (map clean (take n t))
clean-IsText zero t h = tt
clean-IsText (suc n) [] h = tt
clean-IsText (suc n) (c ∷ t) h = (clean-IsScalar c h.0, clean-IsText n t h.1)

-- `block` holds the longest cleaned prefix of `title` that fits, quoted, in `blocks` units.
pub record IsTitleBlock (title block : List ℕ) : Type 0 where
  pub blocks : ℕ
  pub count : ℕ
  pub text : List ℕ
  pub text_eq : text ≡ title_opening ++ map clean (take count title) ++ title_closing
  pub block_eq : block ≡ blocks ∷ (as_bytes text ++ replicate (blocks * 16 - str_len text) 0)
  pub blocks_le : blocks ≤ 255
  pub text_le : str_len text ≤ blocks * 16
  pub padding_lt : blocks * 16 < str_len text + 16
  pub safe : All (λ c. (c ≢ 0x27) × (is_control c ≡ false)) (map clean (take count title))
  pub count_le : count ≤ length title
  pub longest :
      (count ≡ length title)
      ⊎ (max_text < str_len (title_opening ++ map clean (take (suc count) title) ++ title_closing))

as_bytes-replicate_zero : (k : ℕ) → as_bytes (replicate k 0) ≡ replicate k 0
unfolding as_bytes encode_utf8
as_bytes-replicate_zero zero = refl
as_bytes-replicate_zero (suc k) = ap (◌∷◌ 0) (as_bytes-replicate_zero k)

as_bytes-zeros : (t : List ℕ) (k : ℕ) → as_bytes (t ++ replicate k 0) ≡ as_bytes t ++ replicate k 0
as_bytes-zeros t k =
    as_bytes-append t (replicate k 0) ∙ ap (◌++◌ (as_bytes t)) (as_bytes-replicate_zero k)

-- The text of a title's block, before the padding.
unfoldable pub quoted : List ℕ → List ℕ
quoted title = push_title title_opening title ++ title_closing

str_len-closed : (s : List ℕ) → str_len (s ++ title_closing) ≡ str_len s + 2
str_len-closed s = str_len-append s title_closing ∙ unfold str_len as_bytes encode_utf8 in refl

module _ (title : List ℕ) where
  pushed_lem : Pushed title_opening title (push_title title_opening title)
  pushed_lem =
      push_title_lem title_opening title (unfold str_len as_bytes encode_utf8 in omega arith)

  quoted_fits : str_len (quoted title) ≤ max_text
  unfolding quoted
  quoted_fits = omega (arith, pushed_lem.fits, str_len-closed (push_title title_opening title))

  -- For every title the block of `format_title` is one length byte, which does not wrap, and that
  -- many 16-byte units; they hold the cleaned title, quoted, with fewer than 16 zeros after it; the
  -- title has no quote or control character left, and is cut only where one more would not fit.
  pub format_title_lem : IsTitleBlock title (format_title title)
  unfolding format_title quoted
  format_title_lem =
      let p = pushed_lem in
      let text = quoted title in
      let fits : str_len text ≤ max_text = quoted_fits in
      let bounds = div_ceil_bounds (str_len text) fits in
      record {
        blocks = div_ceil (str_len text) 16;
        count = p.count;
        text = text;
        text_eq = ap (λ s. s ++ title_closing) p.added;
        block_eq = block_of_lem text _ refl fits;
        blocks_le = bounds.0;
        text_le = bounds.1;
        padding_lt = bounds.2;
        safe = All-clean (take p.count title);
        count_le = p.count_le;
        longest = elim p.longest [
          | inl e ↦ inl e
          | inr h ↦
              inr (rw (str_len-closed (title_opening ++ map clean (take (suc p.count) title))) h)
        ];
      }

  -- The same for a reader of the stream: a length byte that counts what follows, and the text.
  pub format_title_read :
      (b : ℕ) × (k : ℕ) × (format_title title ≡ b ∷ as_bytes (quoted title ++ replicate k 0))
      × (length (as_bytes (quoted title ++ replicate k 0)) ≡ b * 16)
  unfolding format_title quoted
  format_title_read =
      let text = quoted title in
      let fits : str_len text ≤ max_text = quoted_fits in
      let blocks = div_ceil (str_len text) 16 in
      let k = blocks * 16 - str_len text in
      let bounds = div_ceil_bounds (str_len text) fits in
      (
        blocks,
        k,
        block_of_lem text _ refl fits ∙ ap (◌∷◌ blocks) (sym (as_bytes-zeros text k)),
        ap length (as_bytes-zeros text k)
            ∙ (length-append (as_bytes text) (replicate k 0)
                ∙ unfold str_len in omega (arith, length-replicate {A = ℕ} k 0, bounds.1)),
      )

  pub quoted-IsText : IsText title → IsText (quoted title)
  unfolding quoted
  quoted-IsText h =
      let p = pushed_lem in
      rw p.added (
        All-append IsScalar (title_opening ++ map clean (take p.count title)) title_closing
          (All-append IsScalar title_opening (map clean (take p.count title)) (omega arith)
            (clean-IsText p.count title h))
          (omega arith))
