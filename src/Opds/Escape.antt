-- ===== src/Opds/Escape.antt =====
-- src/opds.rs, `esc`: no markup gets into a feed from a name, and none of the name is lost.
use comic_stream.Common.{
  ℕ, Bool, ◌∙◌, ◌≡◌, refl, true, false, ◌||◌, [], ◌∷◌, ◌++◌, ◌==◌, if◌then◌else◌, All, All-append,
  Bool-cases, inl, inr, ap, list_eq, ==_iff, sym, Option, none, some,
}
use comic_stream.Text.{Text, codes}
use comic_stream.Opds.{escaped, esc}

-- Characters that end a text or an attribute's value, or open a tag.
abbrev pub IsHarmless : ℕ → Type 0
IsHarmless c = (c == b'<' || c == b'>' || c == b'"' || c == 39) ≡ false

escaped-IsHarmless : (c : ℕ) → All IsHarmless (escaped c)
escaped-IsHarmless c = elim (Bool-cases (c == b'&')) [
  | inl e ↦ rw e (refl, (refl, (refl, (refl, (refl, tt)))))
  | inr e0 ↦ elim (Bool-cases (c == b'<')) [
    | inl e ↦ rw (e0, e) (refl, (refl, (refl, (refl, tt))))
    | inr e1 ↦ elim (Bool-cases (c == b'>')) [
      | inl e ↦ rw (e0, e1, e) (refl, (refl, (refl, (refl, tt))))
      | inr e2 ↦ elim (Bool-cases (c == b'"')) [
        | inl e ↦ rw (e0, e1, e2, e) (refl, (refl, (refl, (refl, (refl, (refl, tt))))))
        | inr e3 ↦ elim (Bool-cases (c == 39)) [
          | inl e ↦ rw (e0, e1, e2, e3, e) (refl, (refl, (refl, (refl, (refl, (refl, tt))))))
          | inr e ↦ rw (e0, e1, e2, e3, e) (rw (e1, e2, e3, e) refl, tt)
        ]
      ]
    ]
  ]
]

-- Whatever the text, its escaped form opens no tag and ends no attribute.
pub esc-IsHarmless : (s : Text) → All IsHarmless (esc s)
unfolding esc
esc-IsHarmless [] = tt
esc-IsHarmless (c ∷ s) =
    All-append IsHarmless (escaped c) (esc s) (escaped-IsHarmless c) (esc-IsHarmless s)

-- The characters that a reader of the feed knows by an entity's name.
abbrev named : Text → Option ℕ
named n =
    if list_eq n (codes "amp")
    then some b'&'
    else if list_eq n (codes "lt")
    then some b'<'
    else if list_eq n (codes "gt")
    then some b'>'
    else if list_eq n (codes "quot")
    then some b'"'
    else if list_eq n (codes "apos")
    then some 39
    else none

-- Markup that must not stand in a text or an attribute's value.
abbrev is_markup : ℕ → Bool
is_markup c = c == b'<' || c == b'>' || c == b'"' || c == 39

abbrev push : Option ℕ → Option Text → Option Text
push (some c) (some s) = some (c ∷ s)
push (some c) none = none
push none _ = none

-- A strict reader of escaped text; in an entity it holds the name read so far. It has no answer where
-- the text holds markup, an entity that it does not know, or one that does not end.
abbrev reading : Option Text → Text → Option Text
reading none [] = some []
reading (some n) [] = none
reading none (c ∷ s) =
    if c == b'&'
    then reading (some []) s
    else push (if is_markup c then none else some c) (reading none s)
reading (some n) (c ∷ s) =
    if c == b';' then push (named n) (reading none s) else reading (some (n ++ c ∷ [])) s

abbrev pub unescape : Text → Option Text
unescape s = reading none s

known :
    (c : ℕ) (s : Text) (d : ℕ)
    → (c == d) ≡ true
    → push (some d) (reading none s) ≡ push (some c) (reading none s)
known c s d e = ap (λ x. push (some x) (reading none s)) (sym ((==_iff c d).0 e))

reading-escaped :
    (c : ℕ) (s : Text) → reading none (escaped c ++ s) ≡ push (some c) (reading none s)
reading-escaped c s = elim (Bool-cases (c == b'&')) [
  | inl e ↦ rw e (known c s b'&' e)
  | inr e0 ↦ elim (Bool-cases (c == b'<')) [
    | inl e ↦ rw (e0, e) (known c s b'<' e)
    | inr e1 ↦ elim (Bool-cases (c == b'>')) [
      | inl e ↦ rw (e0, e1, e) (known c s b'>' e)
      | inr e2 ↦ elim (Bool-cases (c == b'"')) [
        | inl e ↦ rw (e0, e1, e2, e) (known c s b'"' e)
        | inr e3 ↦ elim (Bool-cases (c == 39)) [
          | inl e ↦ rw (e0, e1, e2, e3, e) (known c s 39 e)
          | inr e ↦ rw (e0, e1, e2, e3, e) (rw (e0, e1, e2, e3, e) refl)
        ]
      ]
    ]
  ]
]

-- A strict reader, which knows the five entities of XML by name and takes no `<`, `>` or quotation
-- mark and no other or unfinished entity, accepts the escaped text, whatever it was, and gets the
-- text back.
pub unescape-esc : (s : Text) → unescape (esc s) ≡ some s
unfolding esc
unescape-esc [] = refl
unescape-esc (c ∷ s) = reading-escaped c (esc s) ∙ ap (push (some c)) (unescape-esc s)
