-- ===== src/Archive/Cache.antt =====
-- src/archive/mod.rs, `Cache`: the cache of open archives. `LruCache` is the interface `Lru`.
use comic_stream.Common.{
  ℕ, ◌≡◌, refl, sym, ◌∙◌, ap, max, Option, none, some, List, [], ◌∷◌, All, inl, inr, ◌⊎◌,
  Option-cases,
}
use comic_stream.Text.{Text}
use comic_stream.Http.{Outside, done, failed}
use comic_stream.Archive.Sorted.{Outside-cases}

-- What the program relies on of an LRU cache with room for at least one entry: `peek` is what it holds
-- for a key; `get` answers that and changes the order of eviction alone; `put` sets one key, and may drop others.
pub record Lru (Book : Type 0) : Type 1 where
  pub State : Type 0
  pub new : ℕ → State
  pub peek : Text → State → Option Book
  pub get : Text → State → Option Book × State
  pub put : Text → Book → State → State
  pub peek-new : (cap : ℕ) (k : Text) → peek k (new cap) ≡ none
  pub get-peek : (k : Text) (c : State) → (get k c).0 ≡ peek k c
  pub peek-get : (k j : Text) (c : State) → peek j (get k c).1 ≡ peek j c
  pub peek-put :
      (k j : Text) (v b : Book) (c : State)
      → peek j (put k v c) ≡ some b
      → ((j ≡ k) × (v ≡ b)) ⊎ (peek j c ≡ some b)

module _ {Book : Type 0} (lru : Lru Book) where
  open lru use {State, peek, get, put}

  -- `Cache::new`
  unfoldable pub new_cache : ℕ → State
  new_cache capacity = lru.new (max capacity 1)

  abbrev opened_into : Text → Outside Book → State → Outside Book × State
  opened_into hash (failed message) c = (failed message, c)
  opened_into hash (done book) c = (done book, put hash book c)

  -- `get_or_open`, with what `open` answers for the path.
  unfoldable pub get_or_open : Text → Outside Book → State → Outside Book × State
  get_or_open hash opened c = elim (get hash c).0 [
    | some book ↦ (done book, (get hash c).1)
    | none ↦ opened_into hash opened (get hash c).1
  ]

  -- A sequence of requests, each a hash with what `open` would answer then.
  unfoldable pub answers : List (Text × Outside Book) → State → List (Outside Book)
  unfolding get_or_open
  answers [] c = []
  answers ((hash, opened) ∷ requests) c =
      (get_or_open hash opened c).0 ∷ answers requests (get_or_open hash opened c).1

  module _ (contents : Text → Book) where
    -- Files of one hash open alike.
    abbrev pub IsOf : Text × Outside Book → Type 0
    IsOf (hash, opened) = (book : Book) → opened ≡ done book → book ≡ contents hash

    Holds : State → Type 0
    Holds c = (k : Text) (book : Book) → peek k c ≡ some book → book ≡ contents k

    -- An answer is the archive of the hash, if `open` can open it, and if `open` fails it may still be, from
    -- the cache.
    abbrev pub IsAnswer : Text × Outside Book → Outside Book → Type 0
    IsAnswer (hash, opened) (done book) = book ≡ contents hash
    IsAnswer (hash, opened) (failed message) = opened ≡ failed message

    abbrev pub AreAnswers : List (Text × Outside Book) → List (Outside Book) → Type 0
    AreAnswers [] [] = Unit
    AreAnswers (r ∷ rs) (a ∷ as') = IsAnswer r a × AreAnswers rs as'
    AreAnswers [] (a ∷ as') = ⊥
    AreAnswers (r ∷ rs) [] = ⊥

    get_or_open-IsAnswer :
        (hash : Text) (opened : Outside Book) (c : State)
        → IsOf (hash, opened)
        → Holds c
        → IsAnswer (hash, opened) (get_or_open hash opened c).0
          × Holds (get_or_open hash opened c).1
    unfolding get_or_open Holds
    get_or_open-IsAnswer hash opened c alike h =
        let kept : Holds (get hash c).1 = λ k book e. h k book (sym (lru.peek-get hash k c) ∙ e) in
        elim (Option-cases (get hash c).0) [
          | inr (book, found) ↦
              rw (get_or_open, found) (h hash book (sym (lru.get-peek hash c) ∙ found), kept)
          | inl missing ↦ elim (Outside-cases opened) [
            | inl (m, bad) ↦ rw (get_or_open, missing, bad) (refl, kept)
            | inr (book, good) ↦
                rw (get_or_open, missing, good)
                  (
                    alike book good,
                    λ k b e. elim (lru.peek-put hash k book b (get hash c).1 e) [
                      | inl (same, value) ↦ sym value ∙ alike book good ∙ ap contents (sym same)
                      | inr before ↦ kept k b before
                    ],
                  )
          ]
        ]

    answers-AreAnswers :
        (requests : List (Text × Outside Book)) (c : State)
        → All IsOf requests
        → Holds c
        → AreAnswers requests (answers requests c)
    unfolding answers
    answers-AreAnswers [] c alike h = tt
    answers-AreAnswers ((hash, opened) ∷ requests) c alike h =
        let (now, later) = get_or_open-IsAnswer hash opened c alike.0 h in
        (now, answers-AreAnswers requests (get_or_open hash opened c).1 alike.1 later)

    absent_found : {b : Book} → none ≡ some b → ⊥
    absent_found e = cc

    -- Where files of one hash open alike, the cache is not seen: from a new cache, under any requests one after the
    -- other, each is answered with the archive of its hash, or with the error of opening its own path.
    pub answers-new_cache :
        (capacity : ℕ) (requests : List (Text × Outside Book))
        → All IsOf requests
        → AreAnswers requests (answers requests (new_cache capacity))
    unfolding new_cache Holds
    answers-new_cache capacity requests alike =
        answers-AreAnswers requests (new_cache capacity) alike
          (λ k book e. absurd (absent_found (sym (lru.peek-new (max capacity 1) k) ∙ e)))
