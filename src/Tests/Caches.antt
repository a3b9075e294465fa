-- ===== src/Tests/Caches.antt =====
-- The cache of archives with a cache of one entry.
use comic_stream.Common.{
  ◌≡◌, refl, sym, Option, none, some, List, [], ◌∷◌, if◌then◌else◌, list_eq, list_eq_sound,
  some_injective, Bool-cases, inl, inr, ◌⊎◌,
}
use comic_stream.Text.{Text, codes}
use comic_stream.Http.{Outside, done, failed}
use comic_stream.Archive.Sorted.{done_injective, failed_not_done}
use comic_stream.Archive.Cache.{Lru, new_cache, answers, AreAnswers, answers-new_cache}

abbrev Entry : Type 0
Entry = Option (Text × Text)

abbrev peek_one : Text → Entry → Option Text
peek_one k none = none
peek_one k (some (j, book)) = if list_eq k j then some book else none

peek-put_one :
    (k j v b : Text) → peek_one j (some (k, v)) ≡ some b → ((j ≡ k) × (v ≡ b)) ⊎ (none ≡ some b)
peek-put_one k j v b e = elim (Bool-cases (list_eq j k)) [
  | inl same ↦ inl (list_eq_sound j k same, some_injective (rw (peek_one, same) at e))
  | inr other ↦ inr (rw (peek_one, other) at e)
]

absent_found : {b : Text} → none ≡ some b → ⊥
absent_found e = cc

abbrev one_entry : Lru Text
one_entry = record {
  State = Entry;
  new = λ _. none;
  peek = peek_one;
  get = λ k c. (peek_one k c, c);
  put = λ k v c. some (k, v);
  peek-new = λ cap k. refl;
  get-peek = λ k c. refl;
  peek-get = λ k j c. refl;
  peek-put = λ k j v b c e. elim (peek-put_one k j v b e) [
    | inl h ↦ inl h
    | inr none_there ↦ absurd (absent_found none_there)
  ];
}

abbrev requests : List (Text × Outside Text)
requests =
    (codes "a", done (codes "a"))
    ∷ (codes "b", failed (codes "gone"))
    ∷ (codes "a", failed (codes "gone"))
    ∷ []

answers-new_cache_example :
    AreAnswers one_entry
      (λ hash. hash)
      requests
      (answers one_entry requests (new_cache one_entry 0))
answers-new_cache_example =
    answers-new_cache one_entry (λ hash. hash) 0 requests
      (
        λ book e. sym (done_injective e),
        (λ book e. absurd (failed_not_done e), (λ book e. absurd (failed_not_done e), tt)),
      )
