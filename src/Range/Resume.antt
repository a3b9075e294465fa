-- ===== src/Range/Resume.antt =====
-- src/routes.rs, `serve_file_with_range`: lengths that are announced, and a download resumed.
use comic_stream.Common.{
  ℕ, ◌+◌, ◌-◌, ◌≤◌, ◌<◌, ◌≡◌, refl, Option, none, some, arith, List, [], ◌∷◌, ◌++◌, length, take,
  drop, length-take, length-drop, ap, ◌∙◌, sym, take_of_length-le, take-append-drop, inl, inr,
  Bool-cases, subst,
}
use comic_stream.Text.{Text, codes, u64_max}
use comic_stream.Text.Decimal.{show}
use comic_stream.Http.{
  HeaderLib, Response, ok, Outside, done, content_type, content_length, content_range,
}
use comic_stream.Range.{
  RangeSpec, full, partial, unsatisfiable, parse_range, insert_content_range, partial_response,
  respond, serve_file_with_range,
}
use comic_stream.Range.Bounds.{IsWithin, parse_range-IsWithin}
use comic_stream.Range.Forms.{parse_range-forms}

module _ (lib : HeaderLib) where
  open lib use {HeaderMap, get, get-insert_self}

  length-slice :
      (file : List ℕ) (s e : ℕ)
      → s ≤ e
      → e < length file
      → length (take (e - s + 1) (drop s file)) ≡ e - s + 1
  length-slice file s e h k =
      omega (arith, length-take (e - s + 1) (drop s file), length-drop s file)

  unsatisfiable-content_type :
      (value : Text) (m : HeaderMap)
      → get content_type (insert_content_range lib value (lib.remove content_type m)) ≡ none
  unfolding insert_content_range
  unsatisfiable-content_type value m = elim (Bool-cases (lib.accepts value)) [
    | inl yes' ↦ rw yes' (
        lib.get-insert_ne content_range content_type value _ (λ e. cc)
        ∙ lib.get-remove_self content_type m)
    | inr no' ↦ rw no' (lib.get-remove_self content_type m)
  ]

  -- What a response holds for what the header resolved to: the status, the bytes, and the length
  -- that is announced, which is the body's own. A 416 has no body and no type.
  abbrev pub Announces : RangeSpec → List ℕ → Response HeaderMap → Type 0
  Announces full file r =
      (r.status ≡ 200)
      × (r.body ≡ file)
      × (get content_length r.headers ≡ some (show (length r.body)))
  Announces (partial s e) file r =
      (r.status ≡ 206)
      × (r.body ≡ take (e - s + 1) (drop s file))
      × (length r.body ≡ e - s + 1)
      × (get content_length r.headers ≡ some (show (length r.body)))
  Announces unsatisfiable file r =
      (r.status ≡ 416) × (r.body ≡ []) × (get content_type r.headers ≡ none)

  module _ (file : List ℕ) (seek : ℕ → Outside (Unit {0}))
      (seeks : (n : ℕ) → seek n ≡ done tt) where
    respond-Announces :
        (spec : RangeSpec) (m : HeaderMap)
        → IsWithin spec (length file)
        → (r : Response HeaderMap) × (respond lib spec file seek m ≡ ok r) × Announces spec file r
    unfolding respond
    respond-Announces full m h = (_, refl, (refl, refl, get-insert_self content_length _ _))
    respond-Announces (partial s e) m h =
        let len = length-slice file s e h.0 h.1 in
        (
          partial_response lib s e file m,
          rw (seeks s) refl,
          (refl, refl, len, get-insert_self content_length _ _ ∙ ap (λ n. some (show n)) (sym len)),
        )
    respond-Announces unsatisfiable m h = (_, refl, (refl, refl, unsatisfiable-content_type _ m))

    -- If the file can be opened and sought in, every request for it is answered, and the response
    -- holds what its `Range` header resolved to.
    pub serve_file_with_range-Announces :
        (mime : Text) (range : Option Text)
        → (r : Response HeaderMap) × (serve_file_with_range lib (done file) seek mime range ≡ ok r)
          × Announces (parse_range range (length file)) file r
    unfolding serve_file_with_range
    serve_file_with_range-Announces mime range =
        respond-Announces (parse_range range (length file)) _
          (parse_range-IsWithin range (length file))

    rest_of : (k : ℕ) → k < length file → take (length file - 1 - k + 1) (drop k file) ≡ drop k file
    rest_of k h = take_of_length-le _ (drop k file) (omega (arith, length-drop k file))

    -- For a file that can be opened and sought in, of a length that fits a `u64`: a download that broke
    -- off after `k` bytes, fewer than all, and is resumed by `Range: bytes=k-`, is completed: the
    -- answer is a 206 with exactly the bytes that are missing.
    pub resume-completes :
        (mime : Text) (k : ℕ)
        → k < length file
        → length file ≤ u64_max
        → (r : Response HeaderMap) × (serve_file_with_range lib
              (done file)
              seek
              mime
              (some (codes "bytes=" ++ (show k ++ b'-' ∷ [])))
            ≡ ok r)
          × (r.status ≡ 206)
          × (take k file ++ r.body ≡ file)
    resume-completes mime k h fits =
        let (r, ran, announced) =
          serve_file_with_range-Announces mime (some (codes "bytes=" ++ (show k ++ b'-' ∷ []))) in
        let spec : parse_range (some (codes "bytes=" ++ (show k ++ b'-' ∷ []))) (length file)
            ≡ partial k (length file - 1) =
          (parse_range-forms k 0 (length file) (omega arith) (omega arith)).1 ∙ ground arith in
        let (status, body, _, _) = subst (λ x. Announces x file r) spec announced in
        (r, ran, status, rw (body, rest_of k h) (take-append-drop k file))
