-- ===== src/Prefer/Last.antt =====
-- src/routes.rs, `parse_thumbnail_pref`: what the loop over the tokens comes to.
use comic_stream.Common.{
  ℕ, Bool, true, false, ◌≡◌, refl, ◌||◌, Option, none, some, List, [], ◌∷◌, if◌then◌else◌, list_eq,
  list_eq_sound, any, Bool-cases, inl, inr,
}
use comic_stream.Text.{
  Text, codes, lowercase, split, split_once, trim, trim_matches, parse_uint, u32_max,
}
use comic_stream.Prefer.{
  Preference, on_token, on_tokens, on_pair, on_width, is_separator, or_default, parse_preference,
}

-- The value that a token gives to a key, if it is about that key.
abbrev value_in : Text → Option (Text × Text) → Option Text
value_in key none = none
value_in key (some (k, v)) =
    if list_eq (trim k) key then some (trim_matches b'"' (trim v)) else none

abbrev pub value_of : Text → Text → Option Text
value_of key token = value_in key (split_once b'=' (trim token))

abbrev asks : Option Text → Bool
asks none = false
asks (some v) = list_eq v (codes "thumbnail")

-- Whether a token asks for thumbnails.
abbrev pub is_thumbnail : Text → Bool
is_thumbnail token = asks (value_of (codes "variant") token)

abbrev read : Option Text → Option ℕ
read none = none
read (some v) = parse_uint u32_max v

-- The width that a token sets, if it sets one.
abbrev pub width_of : Text → Option ℕ
width_of token = read (value_of (codes "width") token)

abbrev orelse : Option ℕ → Option ℕ → Option ℕ
orelse (some w) _ = some w
orelse none o = o

-- The width of the last token that sets one.
abbrev pub last_width : List Text → Option ℕ
last_width [] = none
last_width (t ∷ ts) = orelse (last_width ts) (width_of t)

or_false : (b : Bool) → (b || false) ≡ b
or_false true = refl
or_false false = refl

or_true : (b : Bool) → (b || true) ≡ true
or_true true = refl
or_true false = refl

orelse-none : (o : Option ℕ) → orelse o none ≡ o
orelse-none none = refl
orelse-none (some w) = refl

orelse_assoc : (a b c : Option ℕ) → orelse a (orelse b c) ≡ orelse (orelse a b) c
orelse_assoc none b c = refl
orelse_assoc (some w) b c = refl

or_assoc : (a b c : Bool) → ((a || b) || c) ≡ (a || (b || c))
or_assoc true b c = refl
or_assoc false b c = refl

on_width_lem :
    (p : Preference) (o : Option ℕ)
    → on_width p o ≡ record { want_thumb = p.want_thumb; width = orelse o p.width }
on_width_lem p none = refl
on_width_lem p (some w) = refl

on_pair_lem :
    (p : Preference) (o : Option (Text × Text))
    → on_pair p o ≡ record {
      want_thumb = p.want_thumb || asks (value_in (codes "variant") o);
      width = orelse (read (value_in (codes "width") o)) p.width;
    }
on_pair_lem p none = rw (or_false p.want_thumb) refl
on_pair_lem p (some (k, v)) = elim (Bool-cases (list_eq (trim k) (codes "variant"))) [
  | inl e ↦ elim (Bool-cases (list_eq (trim_matches b'"' (trim v)) (codes "thumbnail"))) [
    | inl f ↦ rw (list_eq_sound (trim k) (codes "variant") e, f, or_true p.want_thumb) refl
    | inr f ↦ rw (list_eq_sound (trim k) (codes "variant") e, f, or_false p.want_thumb) refl
  ]
  | inr e ↦ elim (Bool-cases (list_eq (trim k) (codes "width"))) [
    | inl f ↦
        rw (e, f, or_false p.want_thumb)
          (on_width_lem p (parse_uint u32_max (trim_matches b'"' (trim v))))
    | inr f ↦ rw (e, f, or_false p.want_thumb) refl
  ]
]

on_tokens_lem :
    (p : Preference) (ts : List Text)
    → on_tokens p ts ≡ record {
      want_thumb = p.want_thumb || any is_thumbnail ts;
      width = orelse (last_width ts) p.width;
    }
unfolding on_token on_tokens
on_tokens_lem p [] = rw (or_false p.want_thumb) refl
on_tokens_lem p (t ∷ ts) =
    rw
      (
        on_pair_lem p (split_once b'=' (trim t)),
        on_tokens_lem
            (record {
              want_thumb = p.want_thumb || is_thumbnail t;
              width = orelse (width_of t) p.width;
            })
            ts,
        or_assoc p.want_thumb (is_thumbnail t) (any is_thumbnail ts),
        orelse_assoc (last_width ts) (width_of t) p.width,
      )
      refl

-- The request asks for a thumbnail exactly if one of the header's tokens does; its width is that
-- of the last token that sets one that fits in 32 bits, and the configured one if none does.
pub parse_preference-tokens :
    (raw : Text) (default_width : ℕ)
    → parse_preference raw default_width ≡ (
        let tokens = split is_separator (lowercase raw) in
        if any is_thumbnail tokens
        then some (or_default default_width (last_width tokens))
        else none)
unfolding parse_preference
parse_preference-tokens raw default_width =
    rw
      (
        on_tokens_lem (record { want_thumb = false; width = none })
            (split is_separator (lowercase raw)),
        orelse-none (last_width (split is_separator (lowercase raw))),
      )
      refl
