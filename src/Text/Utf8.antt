-- ===== src/Text/Utf8.antt =====
-- UTF-8, which `str::as_bytes` writes and `str::from_utf8` reads and validates.
use comic_stream.Common.{
  ℕ, zero, suc, ◌+◌, ◌-◌, ◌*◌, ◌/◌, ◌%◌, ◌≤◌, ◌<◌, ◌≡◌, refl, true, false, Bool, ◌&&◌, not, Option,
  none, some, List, [], ◌∷◌, ◌++◌, arith, ltb, leb, ◌==◌, if◌then◌else◌, All, length, Bool-cases,
  inl, inr, length-append, append_assoc, All-append, ◌∙◌, sym, ap,
}
use mathlib.Core.Option
use comic_stream.Text.{Text}

abbrev pub is_surrogate : ℕ → Bool
is_surrogate c = leb 0xd800 c && leb c 0xdfff

-- The values of a `char`.
abbrev pub IsScalar : ℕ → Type 0
IsScalar c = (leb c 0x10ffff && not (is_surrogate c)) ≡ true

unfoldable pub encode : ℕ → List ℕ
encode c =
    if ltb c 0x80
    then c ∷ []
    else if ltb c 0x800
    then (0xc0 + c / 64) ∷ (0x80 + c % 64) ∷ []
    else if ltb c 0x10000
    then (0xe0 + c / 4096) ∷ (0x80 + c / 64 % 64) ∷ (0x80 + c % 64) ∷ []
    else (0xf0 + c / 262144) ∷ (0x80 + c / 4096 % 64) ∷ (0x80 + c / 64 % 64) ∷ (0x80 + c % 64) ∷ []

unfoldable pub as_bytes : Text → List ℕ
as_bytes [] = []
as_bytes (c ∷ s) = encode c ++ as_bytes s

abbrev is_continuation : ℕ → Bool
is_continuation b = leb 0x80 b && leb b 0xbf

-- A lead byte gives the bytes that follow it; overlong forms, surrogates and values above the last
-- scalar are refused.
accept : Bool → ℕ → List ℕ → Option (ℕ × List ℕ)
accept ok c rest = if ok then some (c, rest) else none

decode_two : ℕ → List ℕ → Option (ℕ × List ℕ)
unfolding accept
decode_two a (b ∷ rest) =
    accept (is_continuation b && leb 0xc2 a) ((a - 0xc0) * 64 + (b - 0x80)) rest
decode_two a [] = none

decode_three : ℕ → List ℕ → Option (ℕ × List ℕ)
unfolding accept
decode_three a (b ∷ c ∷ rest) =
    let v = (a - 0xe0) * 4096 + (b - 0x80) * 64 + (c - 0x80) in
    accept (is_continuation b && is_continuation c && leb 0x800 v && not (is_surrogate v)) v rest
decode_three a (b ∷ []) = none
decode_three a [] = none

decode_four : ℕ → List ℕ → Option (ℕ × List ℕ)
unfolding accept
decode_four a (b ∷ c ∷ d ∷ rest) =
    let v = (a - 0xf0) * 262144 + (b - 0x80) * 4096 + (c - 0x80) * 64 + (d - 0x80) in
    accept
      (is_continuation b
        && is_continuation c
        && is_continuation d
        && leb 0x10000 v
        && leb v 0x10ffff)
      v rest
decode_four a (b ∷ c ∷ []) = none
decode_four a (b ∷ []) = none
decode_four a [] = none

decode : List ℕ → Option (ℕ × List ℕ)
unfolding decode_two decode_three decode_four
decode [] = none
decode (a ∷ rest) =
    if ltb a 0x80
    then some (a, rest)
    else if ltb a 0xc0
    then none
    else if ltb a 0xe0
    then decode_two a rest
    else if ltb a 0xf0
    then decode_three a rest
    else if ltb a 0xf8
    then decode_four a rest
    else none

decode_all : ℕ → List ℕ → Option Text
unfolding decode
decode_all zero [] = some []
decode_all zero (b ∷ bytes) = none
decode_all (suc f) [] = some []
decode_all (suc f) (b ∷ bytes) = elim (decode (b ∷ bytes)) [
  | none ↦ none
  | some (c, rest) ↦ Option.map (λ s. c ∷ s) (decode_all f rest)
]

-- By fuel: a character takes a byte at least.
unfoldable pub from_utf8 : List ℕ → Option Text
unfolding decode_all
from_utf8 bytes = decode_all (length bytes) bytes

value_two : (c : ℕ) → (0xc0 + c / 64 - 0xc0) * 64 + (0x80 + c % 64 - 0x80) ≡ c
value_two c = omega arith

value_three :
    (c : ℕ)
    → (0xe0 + c / 4096 - 0xe0) * 4096 + (0x80 + c / 64 % 64 - 0x80) * 64 + (0x80 + c % 64 - 0x80)
      ≡ c
value_three c = omega arith

value_four :
    (c : ℕ)
    → (0xf0 + c / 262144 - 0xf0) * 262144
        + (0x80 + c / 4096 % 64 - 0x80) * 4096
        + (0x80 + c / 64 % 64 - 0x80) * 64
        + (0x80 + c % 64 - 0x80)
      ≡ c
value_four c = omega arith

continuation : (n : ℕ) → is_continuation (0x80 + n % 64) ≡ true
continuation n = ground arith

decode-encode_two :
    (c : ℕ) (rest : List ℕ)
    → 0x80 ≤ c
    → c < 0x800
    → decode ((0xc0 + c / 64) ∷ (0x80 + c % 64) ∷ rest) ≡ some (c, rest)
unfolding decode
decode-encode_two c rest h k = rw (value_two c, continuation c) (ground arith)

decode-encode_three :
    (c : ℕ) (rest : List ℕ)
    → IsScalar c
    → 0x800 ≤ c
    → c < 0x10000
    → decode ((0xe0 + c / 4096) ∷ (0x80 + c / 64 % 64) ∷ (0x80 + c % 64) ∷ rest) ≡ some (c, rest)
unfolding decode
decode-encode_three c rest s h k =
    rw (value_three c, continuation c, continuation (c / 64)) (ground arith)

decode-encode_four :
    (c : ℕ) (rest : List ℕ)
    → IsScalar c
    → 0x10000 ≤ c
    → decode (
        (0xf0 + c / 262144)
        ∷ (0x80 + c / 4096 % 64)
        ∷ (0x80 + c / 64 % 64)
        ∷ (0x80 + c % 64)
        ∷ rest)
      ≡ some (c, rest)
unfolding decode
decode-encode_four c rest s h =
    rw (value_four c, continuation c, continuation (c / 64), continuation (c / 4096)) (ground arith)

decode-encode : (c : ℕ) (rest : List ℕ) → IsScalar c → decode (encode c ++ rest) ≡ some (c, rest)
unfolding encode
decode-encode c rest h = elim (Bool-cases (ltb c 0x80)) [
  | inl one ↦ rw one (unfold decode in rw one)
  | inr more ↦ rw more (elim (Bool-cases (ltb c 0x800)) [
    | inl two ↦ rw two (decode-encode_two c rest (ground arith) (ground arith))
    | inr more' ↦ rw more' (elim (Bool-cases (ltb c 0x10000)) [
      | inl three ↦ rw three (decode-encode_three c rest h (ground arith) (ground arith))
      | inr four ↦ rw four (decode-encode_four c rest h (ground arith))
    ])
  ])
]

decode_all-step :
    (f c : ℕ) (bytes rest : List ℕ)
    → decode bytes ≡ some (c, rest)
    → decode_all (suc f) bytes ≡ Option.map (λ s. c ∷ s) (decode_all f rest)
unfolding decode_all
decode_all-step f c [] rest h = unfold decode in cc
decode_all-step f c (b ∷ bytes) rest h = rw (decode_all, h)

length-encode : (c : ℕ) → 0 < length (encode c)
unfolding encode
length-encode c = ground arith

decode_all-as_bytes :
    (f : ℕ) (s : Text)
    → All IsScalar s
    → length (as_bytes s) ≤ f
    → decode_all f (as_bytes s) ≡ some s
unfolding as_bytes
decode_all-as_bytes zero [] h k = unfold decode_all in refl
decode_all-as_bytes (suc f) [] h k = unfold decode_all in refl
decode_all-as_bytes zero (c ∷ s) h k =
    absurd (omega (arith, length-append (encode c) (as_bytes s), length-encode c))
decode_all-as_bytes (suc f) (c ∷ s) h k =
    let fits : length (as_bytes s) ≤ f =
      omega (arith, length-append (encode c) (as_bytes s), length-encode c) in
    decode_all-step f c (encode c ++ as_bytes s) (as_bytes s) (decode-encode c (as_bytes s) h.0)
    ∙ rw (decode_all-as_bytes f s h.1 fits)

-- The bytes of a text are read back as the text.
pub from_utf8-as_bytes : (s : Text) → All IsScalar s → from_utf8 (as_bytes s) ≡ some s
unfolding from_utf8
from_utf8-as_bytes s h = decode_all-as_bytes (length (as_bytes s)) s h (omega arith)

pub as_bytes-append : (s t : Text) → as_bytes (s ++ t) ≡ as_bytes s ++ as_bytes t
unfolding as_bytes
as_bytes-append [] t = refl
as_bytes-append (c ∷ s) t = rw (as_bytes-append s t) (sym (append_assoc (encode c) _ _))

-- The bytes above ASCII stand for no ASCII character.
module _ (q : ℕ) (ascii : q < 0x80) where
  encode-Lacks : (c : ℕ) → (c == q) ≡ false → All (λ b. (b == q) ≡ false) (encode c)
  unfolding encode
  encode-Lacks c h = elim (Bool-cases (ltb c 0x80)) [
    | inl one ↦ rw one (h, tt)
    | inr more ↦ rw more (elim (Bool-cases (ltb c 0x800)) [
      | inl two ↦ rw two (ground arith, (ground arith, tt))
      | inr more' ↦ rw more' (elim (Bool-cases (ltb c 0x10000)) [
        | inl three ↦ rw three (ground arith, (ground arith, (ground arith, tt)))
        | inr four ↦ rw four (ground arith, (ground arith, (ground arith, (ground arith, tt))))
      ])
    ])
  ]

  pub as_bytes-Lacks :
      (s : Text) → All (λ c. (c == q) ≡ false) s → All (λ b. (b == q) ≡ false) (as_bytes s)
  unfolding as_bytes
  as_bytes-Lacks [] h = tt
  as_bytes-Lacks (c ∷ s) h =
      All-append (λ b. (b == q) ≡ false) (encode c) (as_bytes s) (encode-Lacks c h.0)
        (as_bytes-Lacks s h.1)

  All-suffix :
      (xs ys : List ℕ) → All (λ b. (b == q) ≡ false) (xs ++ ys) → All (λ b. (b == q) ≡ false) ys
  All-suffix [] ys h = h
  All-suffix (x ∷ xs) ys h = All-suffix xs ys h.1

  encode_of_ascii :
      (c : ℕ) (ys : List ℕ) → (c == q) ≡ true → All (λ b. (b == q) ≡ false) (encode c ++ ys) → ⊥
  unfolding encode
  encode_of_ascii c ys e h =
      let small : ltb c 0x80 ≡ true = ground arith in
      let found : (c == q) ≡ false = (rw small at h).0 in cc

  pub Lacks-as_bytes :
      (s : Text) → All (λ b. (b == q) ≡ false) (as_bytes s) → All (λ c. (c == q) ≡ false) s
  unfolding as_bytes
  Lacks-as_bytes [] h = tt
  Lacks-as_bytes (c ∷ s) h = elim (Bool-cases (c == q)) [
    | inl same ↦ absurd (encode_of_ascii c (as_bytes s) same h)
    | inr other ↦ (other, Lacks-as_bytes s (All-suffix (encode c) (as_bytes s) h))
  ]

-- Texts with the same bytes are the same.
pub as_bytes-injective :
    (s t : Text) → All IsScalar s → All IsScalar t → as_bytes s ≡ as_bytes t → s ≡ t
as_bytes-injective s t hs ht e =
    let both : some s ≡ some t =
      sym (from_utf8-as_bytes s hs) ∙ ap from_utf8 e ∙ from_utf8-as_bytes t ht in
    cc both
