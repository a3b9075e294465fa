-- ===== src/Tests/Like.antt =====
-- LIKE as a function, which meets what SQLite documents.
use comic_stream.Common.{
  ◌≡◌, refl, ap, Bool, true, false, ◌&&◌, ◌||◌, List, [], ◌∷◌, ◌++◌, ◌==◌, ==_iff, Bool-cases, inl,
  inr, arith,
}
use comic_stream.Text.{Text, to_ascii_lowercase}
use comic_stream.Search.Glob.{Item, lit, one, many, items, Matches}
use comic_stream.Catalog.Hits.{IsLike}

unfoldable pub any_suffix : (Text → Bool) → Text → Bool
any_suffix p [] = p []
any_suffix p (d ∷ t) = p (d ∷ t) || any_suffix p t

unfoldable pub hits : List Item → Text → Bool
unfolding any_suffix
hits [] [] = true
hits [] (d ∷ t) = false
hits (lit c ∷ is) [] = false
hits (lit c ∷ is) (d ∷ t) = (to_ascii_lowercase d == to_ascii_lowercase c) && hits is t
hits (one ∷ is) [] = false
hits (one ∷ is) (d ∷ t) = hits is t
hits (many ∷ is) s = any_suffix (hits is) s

unfoldable pub like : Text → Text → Bool
like pattern t = hits (items false pattern) t

or_true : (a b : Bool) → b ≡ true → (a || b) ≡ true
or_true a b e = ground (arith, e)

or_left : (a b : Bool) → a ≡ true → (a || b) ≡ true
or_left a b e = ground (arith, e)

both : (a b : Bool) → (a && b) ≡ true → (a ≡ true) × (b ≡ true)
both a b e = ground (arith, e)

both_true : (a b : Bool) → a ≡ true → b ≡ true → (a && b) ≡ true
both_true a b e h = ground (arith, e, h)

suffix-found :
    (p : Text → Bool) (s : Text)
    → any_suffix p s ≡ true
    → (a : Text) × (t : Text) × (s ≡ a ++ t) × (p t ≡ true)
unfolding any_suffix
suffix-found p [] e = ([], [], refl, e)
suffix-found p (d ∷ s) e = elim (Bool-cases (p (d ∷ s))) [
  | inl here ↦ ([], d ∷ s, refl, here)
  | inr later ↦
      let (a, t, same, found) = suffix-found p s (rw (any_suffix, later) at e) in
      (d ∷ a, t, ap (λ l. d ∷ l) same, found)
]

suffix-true : (p : Text → Bool) (a t : Text) → p t ≡ true → any_suffix p (a ++ t) ≡ true
unfolding any_suffix
suffix-true p [] [] e = e
suffix-true p [] (d ∷ t) e = or_left (p (d ∷ t)) (any_suffix p t) e
suffix-true p (c ∷ a) t e = or_true (p (c ∷ a ++ t)) (any_suffix p (a ++ t)) (suffix-true p a t e)

hits-Matches : (is : List Item) (s : Text) → hits is s ≡ true → Matches is s
unfolding hits
hits-Matches [] [] e = refl
hits-Matches [] (d ∷ t) e = absurd (cc e)
hits-Matches (lit c ∷ is) [] e = absurd (cc e)
hits-Matches (lit c ∷ is) (d ∷ t) e =
    let (same, rest) = both (to_ascii_lowercase d == to_ascii_lowercase c) (hits is t) e in
    (
      d,
      t,
      refl,
      (==_iff (to_ascii_lowercase d) (to_ascii_lowercase c)).0 same,
      hits-Matches is t rest,
    )
hits-Matches (one ∷ is) [] e = absurd (cc e)
hits-Matches (one ∷ is) (d ∷ t) e = (d, t, refl, hits-Matches is t e)
hits-Matches (many ∷ is) s e =
    let (a, t, same, found) = suffix-found (hits is) s e in (a, t, same, hits-Matches is t found)

Matches-hits : (is : List Item) (s : Text) → Matches is s → hits is s ≡ true
unfolding hits
Matches-hits [] s e = rw e refl
Matches-hits (lit c ∷ is) s (d, t, same, letter, rest) = rw same (
    both_true (to_ascii_lowercase d == to_ascii_lowercase c) (hits is t)
      ((==_iff (to_ascii_lowercase d) (to_ascii_lowercase c)).1 letter) (Matches-hits is t rest))
Matches-hits (one ∷ is) s (d, t, same, rest) = rw same (Matches-hits is t rest)
Matches-hits (many ∷ is) s (a, t, same, rest) =
    rw same (suffix-true (hits is) a t (Matches-hits is t rest))

pub like-IsLike : IsLike like
unfolding like
like-IsLike pattern t = (hits-Matches (items false pattern) t, Matches-hits (items false pattern) t)
