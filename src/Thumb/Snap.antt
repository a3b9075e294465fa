-- ===== src/Thumb/Snap.antt =====
-- src/thumb.rs, `snap_width`: which width a request is served with.
use comic_stream.Common.{
  ℕ, ◌≤◌, ◌≡◌, refl, min, true, false, ◌++◌, sym, max, some, ap, ◌∙◌, append_assoc, List, [], ◌∷◌,
  All, any, ◌==◌, arith,
}
use comic_stream.Text.{Text, codes, is_ascii_digit, parse_uint, split_once}
use comic_stream.Text.Decimal.{show, show-All, parse_uint-show}
use comic_stream.Text.Laws.{split_once_first, digits-Lacks}
use comic_stream.Thumb.{page_thumb_path, snap_width, page_thumb_widths, max_page_thumb_width}

-- The width is on the ladder, no smaller than the request as far as the ladder goes, and no
-- rung below it would do.
abbrev pub IsSnapOf : ℕ → ℕ → Type 0
IsSnapOf requested w =
    (any (λ v. v == w) page_thumb_widths ≡ true)
    × (min requested max_page_thumb_width ≤ w)
    × All (λ v. min requested max_page_thumb_width ≤ v → w ≤ v) page_thumb_widths

-- Every request is served with the least width of the ladder at or above it, where the ladder
-- reaches it, and with the greatest width otherwise.
pub snap_width-IsSnapOf : (requested : ℕ) → IsSnapOf requested (snap_width requested)
unfolding snap_width
snap_width-IsSnapOf requested = ground arith

show-injective : (i j : ℕ) → show i ≡ show j → i ≡ j
show-injective i j e = some_inj (
    sym (parse_uint-show (max i j) i (omega arith))
    ∙ ap (parse_uint (max i j)) e
    ∙ parse_uint-show (max i j) j (omega arith))
  where
    some_inj : {a b : ℕ} → some a ≡ some b → a ≡ b
    some_inj h = cc h

-- A number ends where the first character that is no digit stands.
show-split :
    (i j q : ℕ) (s t : Text)
    → is_ascii_digit q ≡ false
    → show i ++ q ∷ s ≡ show j ++ q ∷ t
    → (i ≡ j) × (s ≡ t)
show-split i j q s t n e =
    let h : some (show i, s) ≡ some (show j, t) =
      sym (split_once_first q (show i) s (digits-Lacks q (show i) n (show-All i)))
      ∙ ap (split_once q) e
      ∙ split_once_first q (show j) t (digits-Lacks q (show j) n (show-All j)) in
    (show-injective i j (cc h), cc h)

append_cancel {ℓ} : {A : Type ℓ} (d s t : List A) → d ++ s ≡ d ++ t → s ≡ t
append_cancel [] s t e = e
append_cancel (x ∷ d) s t e = append_cancel d s t (cc e)

components :
    {A : Type 0} (d : List A) (p g h a b : A)
    → ((d ++ p ∷ []) ++ g ∷ []) ++ a ∷ [] ≡ ((d ++ p ∷ []) ++ h ∷ []) ++ b ∷ []
    → (g ≡ h) × (a ≡ b)
components d p g h a b e =
    let joined : (d ++ p ∷ []) ++ g ∷ a ∷ [] ≡ (d ++ p ∷ []) ++ h ∷ b ∷ [] =
      sym (append_assoc (d ++ p ∷ []) (g ∷ []) (a ∷ []))
      ∙ e
      ∙ append_assoc (d ++ p ∷ []) (h ∷ []) (b ∷ []) in
    let rest = append_cancel (d ++ p ∷ []) (g ∷ a ∷ []) (h ∷ b ∷ []) joined in (cc rest, cc rest)

-- Two pages, or two widths of one page, never share a file: only the same page of the same book
-- at the same width has the same path.
pub page_thumb_path-injective :
    (data_dir : List Text) (g h : Text) (i j v w : ℕ)
    → page_thumb_path data_dir g i v ≡ page_thumb_path data_dir h j w
    → (g ≡ h) × (i ≡ j) × (v ≡ w)
unfolding page_thumb_path
page_thumb_path-injective data_dir g h i j v w e =
    let (hash, file) = components data_dir (codes "page_thumbs") g h _ _ e in
    let (index, rest) =
      show-split i j b'_' (show v ++ codes ".jpg") (show w ++ codes ".jpg") refl file in
    let (width, _) = show-split v w b'.' (codes "jpg") (codes "jpg") refl rest in
    (hash, index, width)
