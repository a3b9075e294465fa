-- ===== src/Natsort/Tokens.antt =====
-- src/natsort.rs, `cmp` against an independent reading: names are compared as sequences of tokens.
use comic_stream.Common.{
  ℕ, zero, suc, ◌≤◌, ◌<◌, ◌≡◌, refl, Option, none, some, List, [], ◌∷◌, arith, compare, Ordering,
  length, if◌then◌else◌, ltb, inl, inr, true, false, Bool-cases, ap,
}
use comic_stream.Text.{Text, is_ascii_digit, to_ascii_lowercase}
use comic_stream.Order.{and_then, flip, IsOrder, lex, lex-IsOrder}
use comic_stream.Natsort.{push_digit, take_number_from, take_number, cmp_loop, cmp}

-- A run of digits, by its number (which saturates), or any other character in lower case.
pub data Token : Type 0 where
  number : ℕ → Token
  letter : ℕ → Token

-- The tokens of a name; `some n` stands within a run of digits read as `n` so far.
unfoldable pub tokens_from : Option ℕ → Text → List Token
tokens_from none [] = []
tokens_from (some n) [] = number n ∷ []
tokens_from none (c ∷ s) =
    let run = tokens_from (some (push_digit 0 c)) s in
    let rest = tokens_from none s in
    if is_ascii_digit c then run else letter (to_ascii_lowercase c) ∷ rest
tokens_from (some n) (c ∷ s) =
    let run = tokens_from (some (push_digit n c)) s in
    let rest = tokens_from none s in
    if is_ascii_digit c then run else number n ∷ letter (to_ascii_lowercase c) ∷ rest

unfoldable pub tokens : Text → List Token
unfolding tokens_from
tokens s = tokens_from none s

-- Numbers by their size, letters by their code; numbers stand where the digits do.
unfoldable pub token_cmp : Token → Token → Ordering
token_cmp (number n) (number m) = compare n m
token_cmp (letter c) (letter d) = compare c d
token_cmp (number n) (letter d) = if ltb d b'0' then Ordering.gt else Ordering.lt
token_cmp (letter c) (number m) = if ltb c b'0' then Ordering.lt else Ordering.gt

token_cmp_swap : (x y : Token) → token_cmp y x ≡ flip (token_cmp x y)
unfolding token_cmp
token_cmp_swap (number n) (number m) = ground arith
token_cmp_swap (letter c) (letter d) = ground arith
token_cmp_swap (number n) (letter d) = ground arith
token_cmp_swap (letter c) (number m) = ground arith

token_cmp_exact : (x y : Token) → token_cmp x y ≡ Ordering.eq → x ≡ y
unfolding token_cmp
token_cmp_exact (number n) (number m) h = ground arith
token_cmp_exact (letter c) (letter d) h = ground arith
token_cmp_exact (number n) (letter d) h = ground arith
token_cmp_exact (letter c) (number m) h = ground arith

token_cmp_trans :
    (x y z : Token)
    → token_cmp x y ≡ Ordering.lt
    → token_cmp y z ≡ Ordering.lt
    → token_cmp x z ≡ Ordering.lt
unfolding token_cmp
token_cmp_trans (number n) (number m) (number k) h g = ground arith
token_cmp_trans (number n) (number m) (letter k) h g = ground arith
token_cmp_trans (number n) (letter m) (number k) h g = ground arith
token_cmp_trans (number n) (letter m) (letter k) h g = ground arith
token_cmp_trans (letter n) (number m) (number k) h g = ground arith
token_cmp_trans (letter n) (number m) (letter k) h g = ground arith
token_cmp_trans (letter n) (letter m) (number k) h g = ground arith
token_cmp_trans (letter n) (letter m) (letter k) h g = ground arith

token_cmp_refl : (x : Token) → token_cmp x x ≡ Ordering.eq
unfolding token_cmp
token_cmp_refl (number n) = ground arith
token_cmp_refl (letter c) = ground arith

token_cmp-IsOrder : IsOrder token_cmp
token_cmp-IsOrder = record {
  reflexive = token_cmp_refl;
  swapped = token_cmp_swap;
  exact = token_cmp_exact;
  transitive = token_cmp_trans;
}

-- What `take_number` reads is the first token, and it leaves no digit in front.
tokens_from-take_number :
    (n : ℕ) (s : Text)
    → tokens_from (some n) s
      ≡ number (take_number_from n s).0 ∷ tokens_from none (take_number_from n s).1
unfolding tokens_from take_number_from
tokens_from-take_number n [] = refl
tokens_from-take_number n (c ∷ s) = elim (Bool-cases (is_ascii_digit c)) [
  | inl digit ↦ rw digit (tokens_from-take_number (push_digit n c) s)
  | inr other ↦ rw other (rw other refl)
]

length-take_number : (n : ℕ) (s : Text) → length (take_number_from n s).1 ≤ length s
unfolding take_number_from
length-take_number n [] = omega arith
length-take_number n (c ∷ s) = elim (Bool-cases (is_ascii_digit c)) [
  | inl digit ↦ rw digit (omega (arith, length-take_number (push_digit n c) s))
  | inr other ↦ rw other (omega arith)
]

tokens_of_digit :
    (c : ℕ) (s : Text)
    → is_ascii_digit c ≡ true
    → tokens (c ∷ s) ≡ number (take_number (c ∷ s)).0 ∷ tokens (take_number (c ∷ s)).1
unfolding tokens take_number
tokens_of_digit c s h = rw h (tokens_from-take_number (push_digit 0 c) s)

tokens_of_letter :
    (c : ℕ) (s : Text)
    → is_ascii_digit c ≡ false
    → tokens (c ∷ s) ≡ letter (to_ascii_lowercase c) ∷ tokens s
unfolding tokens
tokens_of_letter c s h = rw h

-- A digit and another character compare as their tokens do, whatever follows.
mixed_digit_letter :
    (n c d : ℕ) (o p : Ordering)
    → is_ascii_digit c ≡ true
    → is_ascii_digit d ≡ false
    → and_then (compare (to_ascii_lowercase c) (to_ascii_lowercase d)) o
      ≡ and_then (token_cmp (number n) (letter (to_ascii_lowercase d))) p
unfolding token_cmp
mixed_digit_letter n c d o p h k = ground arith

mixed_letter_digit :
    (n c d : ℕ) (o p : Ordering)
    → is_ascii_digit c ≡ false
    → is_ascii_digit d ≡ true
    → and_then (compare (to_ascii_lowercase c) (to_ascii_lowercase d)) o
      ≡ and_then (token_cmp (letter (to_ascii_lowercase c)) (number n)) p
unfolding token_cmp
mixed_letter_digit n c d o p h k = ground arith

token_cmp-number : (n m : ℕ) → token_cmp (number n) (number m) ≡ compare n m
unfolding token_cmp
token_cmp-number n m = refl

token_cmp-letter : (c d : ℕ) → token_cmp (letter c) (letter d) ≡ compare c d
unfolding token_cmp
token_cmp-letter c d = refl

tokens-nil : tokens [] ≡ []
unfolding tokens
tokens-nil = refl

cmp_loop-lex :
    (f : ℕ) (a b : Text) → length a < f → cmp_loop f a b ≡ lex token_cmp (tokens a) (tokens b)
unfolding cmp_loop
cmp_loop-lex zero a b h = absurd (omega arith)
cmp_loop-lex (suc f) [] [] h = rw tokens-nil refl
cmp_loop-lex (suc f) [] (cb ∷ b) h = elim (Bool-cases (is_ascii_digit cb)) [
  | inl digit ↦ rw (tokens-nil, tokens_of_digit cb b digit) refl
  | inr other ↦ rw (tokens-nil, tokens_of_letter cb b other) refl
]
cmp_loop-lex (suc f) (ca ∷ a) [] h = elim (Bool-cases (is_ascii_digit ca)) [
  | inl digit ↦ rw (tokens-nil, tokens_of_digit ca a digit) refl
  | inr other ↦ rw (tokens-nil, tokens_of_letter ca a other) refl
]
cmp_loop-lex (suc f) (ca ∷ a) (cb ∷ b) h = elim (Bool-cases (is_ascii_digit ca)) [
  | inl p ↦ elim (Bool-cases (is_ascii_digit cb)) [
    | inl q ↦
        rw (tokens_of_digit ca a p, tokens_of_digit cb b q, p, q, token_cmp-number)
          (ap (and_then _)
            (cmp_loop-lex f _ _ (omega (arith, length-take_number (push_digit 0 ca) a))))
    | inr q ↦
        rw (tokens_of_digit ca a p, tokens_of_letter cb b q, p, q)
          (mixed_digit_letter _ ca cb _ _ p q)
  ]
  | inr p ↦ elim (Bool-cases (is_ascii_digit cb)) [
    | inl q ↦
        rw (tokens_of_letter ca a p, tokens_of_digit cb b q, p) (mixed_letter_digit _ ca cb _ _ p q)
    | inr q ↦
        rw (tokens_of_letter ca a p, tokens_of_letter cb b q, p, token_cmp-letter)
          (ap (and_then _) (cmp_loop-lex f a b (omega arith)))
  ]
]

-- For every two names, with the fuel that `cmp` is given: `cmp` orders them as their tokens, item by
-- item, a shorter sequence before its extensions.
pub cmp-lex : (a b : Text) → cmp a b ≡ lex token_cmp (tokens a) (tokens b)
unfolding cmp
cmp-lex a b = cmp_loop-lex (suc (length a)) a b (omega arith)

tokens_lex : IsOrder (lex token_cmp)
tokens_lex = lex-IsOrder token_cmp token_cmp-IsOrder

-- `cmp` is a total order of names up to equal tokens: it is equal exactly where the tokens are,
-- it turns round with its arguments, and both "less" and "equal" carry over.
pub record IsPreorder (c : Text → Text → Ordering) : Type 0 where
  pub reflexive : (x : Text) → c x x ≡ Ordering.eq
  pub swapped : (x y : Text) → c y x ≡ flip (c x y)
  pub same : (x y z : Text) → c x y ≡ Ordering.eq → c x z ≡ c y z
  pub transitive : (x y z : Text) → c x y ≡ Ordering.lt → c y z ≡ Ordering.lt → c x z ≡ Ordering.lt

-- `cmp` is what `sort_by` asks for: reflexive, antisymmetric and transitive, with names that
-- compare equal alike to all others.
pub cmp-IsPreorder : IsPreorder cmp
cmp-IsPreorder = record {
  reflexive = λ x. rw (cmp-lex x x) (tokens_lex.reflexive (tokens x));
  swapped = λ x y. rw (cmp-lex x y, cmp-lex y x) (tokens_lex.swapped (tokens x) (tokens y));
  same = λ x y z h.
      rw (cmp-lex x z, cmp-lex y z, tokens_lex.exact (tokens x) (tokens y) (rw (cmp-lex x y) at h));
  transitive = λ x y z h k. rw (cmp-lex x z) (
      tokens_lex.transitive (tokens x) (tokens y) (tokens z) (rw (cmp-lex x y) at h)
        (rw (cmp-lex y z) at k));
}
