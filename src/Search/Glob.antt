-- ===== src/Search/Glob.antt =====
-- src/search.rs: which names a query finds. `like` is the LIKE of SQLite with ESCAPE '\'.
use comic_stream.Common.{
  ℕ, Bool, true, false, ◌≡◌, refl, sym, List, [], ◌∷◌, ◌++◌, ◌==◌, if◌then◌else◌, ap, Bool-cases,
  inl, inr, map, append_assoc, append-nil, All, ==_iff, ◌↔◌, subst,
}
use comic_stream.Text.{Text, codes, to_ascii_lowercase, lowercase}
use comic_stream.Search.{to_like_pattern, like_body, like_char}

-- What a LIKE pattern is made of: a character, `_` and `%`.
pub data Item : Type 0 where
  lit : ℕ → Item
  one : Item
  many : Item

abbrev pub item_of : ℕ → Item
item_of c = if c == b'%' then many else if c == b'_' then one else lit c

-- How LIKE reads a pattern; the Boolean says whether the escape character stands before.
abbrev pub items : Bool → Text → List Item
items _ [] = []
items false (c ∷ p) = if c == b'\\' then items true p else item_of c ∷ items false p
items true (c ∷ p) = lit c ∷ items false p

-- What SQLite documents: `%` stands for any text, `_` for a character, and a character for
-- itself, the case of an ASCII letter aside.
abbrev pub Matches : List Item → Text → Type 0
Matches [] s = s ≡ []
Matches (lit c ∷ is) s =
    (d : ℕ) × (t : Text) × (s ≡ d ∷ t)
    × (to_ascii_lowercase d ≡ to_ascii_lowercase c)
    × Matches is t
Matches (one ∷ is) s = (d : ℕ) × (t : Text) × (s ≡ d ∷ t) × Matches is t
Matches (many ∷ is) s = (a : Text) × (t : Text) × (s ≡ a ++ t) × Matches is t

-- What a user means by a character of a query.
abbrev pub meant : ℕ → Item
meant c = if c == b'*' then many else lit c

known :
    (c : ℕ) (p : Text) (d : ℕ)
    → (c == d) ≡ true
    → (d == b'*') ≡ false
    → (lit d ∷ items false p) ≡ (meant c ∷ items false p)
known c p d e n =
    subst (λ x. (lit d ∷ items false p) ≡ (meant x ∷ items false p)) (sym ((==_iff c d).0 e))
      (rw n refl)

items-like_char : (c : ℕ) (p : Text) → items false (like_char c ++ p) ≡ meant c ∷ items false p
items-like_char c p = elim (Bool-cases (c == b'\\')) [
  | inl e ↦ rw e (known c p b'\\' e refl)
  | inr e0 ↦ elim (Bool-cases (c == b'%')) [
    | inl e ↦ rw (e0, e) (known c p b'%' e refl)
    | inr e1 ↦ elim (Bool-cases (c == b'_')) [
      | inl e ↦ rw (e0, e1, e) (known c p b'_' e refl)
      | inr e2 ↦ elim (Bool-cases (c == b'*')) [
        | inl e ↦ rw (e0, e1, e2, e) refl
        | inr e ↦ rw (e0, e1, e2, e) (rw (e0, e1, e2) refl)
      ]
    ]
  ]
]

items-like_body : (q p : Text) → items false (like_body q ++ p) ≡ map meant q ++ items false p
items-like_body [] p = refl
items-like_body (c ∷ q) p =
    rw
      (
        append_assoc (like_char c) (like_body q) p,
        items-like_char c (like_body q ++ p),
        items-like_body q p,
      )
      refl

-- The pattern of a query reads as: any text, then what each character of the query means (`*`
-- any text, every other character itself, with the signs of LIKE among them), then any text.
pub items-to_like_pattern :
    (q : Text) → items false (to_like_pattern q) ≡ many ∷ map meant q ++ many ∷ []
unfolding to_like_pattern
items-to_like_pattern q = ap (◌∷◌ many) (items-like_body q (codes "%"))

abbrev pub IsPlain : ℕ → Type 0
IsPlain c = (c == b'*') ≡ false

meant-plain : (q : Text) → All IsPlain q → map meant q ≡ map lit q
meant-plain [] _ = refl
meant-plain (c ∷ q) h = rw (h.0, meant-plain q h.1) refl

-- The text starts with another spelling of `q`, the case of the letters aside.
abbrev StartsWith : Text → Text → Type 0
StartsWith q s = (b : Text) × (c : Text) × (s ≡ b ++ c) × (lowercase b ≡ lowercase q)

-- The text contains another spelling of `q`.
abbrev pub IsFoundIn : Text → Text → Type 0
IsFoundIn q s = (a : Text) × (t : Text) × (s ≡ a ++ t) × StartsWith q t

starts-cons :
    (x : ℕ) (q s : Text) (d : ℕ) (t : Text)
    → s ≡ d ∷ t
    → to_ascii_lowercase d ≡ to_ascii_lowercase x
    → StartsWith q t
    → StartsWith (x ∷ q) s
unfolding lowercase
starts-cons x q s d t e l (b, c, e', l') = (d ∷ b, c, rw (e, e') refl, rw (l, l') refl)

Matches-StartsWith : (q s : Text) → Matches (map lit q ++ many ∷ []) s → StartsWith q s
unfolding lowercase
Matches-StartsWith [] s _ = ([], s, refl, refl)
Matches-StartsWith (x ∷ q) s (d, t, e, l, m) = starts-cons x q s d t e l (Matches-StartsWith q t m)

StartsWith-Matches : (q s : Text) → StartsWith q s → Matches (map lit q ++ many ∷ []) s
unfolding lowercase
StartsWith-Matches [] s _ = (s, [], sym (append-nil s), refl)
StartsWith-Matches (x ∷ q) s ([], c, e, l) = absurd (cc l)
StartsWith-Matches (x ∷ q) s (d ∷ b, c, e, l) =
    (d, b ++ c, e, cc l, StartsWith-Matches q (b ++ c) (b, c, refl, cc l))

-- A query without `*` finds exactly the names that contain it, the case of ASCII letters aside:
-- its `%`, `_` and `\` stand for themselves.
pub to_like_pattern-IsFoundIn :
    (q s : Text) → All IsPlain q → Matches (items false (to_like_pattern q)) s ↔ IsFoundIn q s
to_like_pattern-IsFoundIn q s h =
    rw (items-to_like_pattern q, meant-plain q h)
      (
        λ (a, t, e, m). (a, t, e, Matches-StartsWith q t m),
        λ (a, t, e, m). (a, t, e, StartsWith-Matches q t m),
      )
