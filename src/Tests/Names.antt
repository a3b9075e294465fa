-- ===== src/Tests/Names.antt =====
-- The other components on concrete inputs.
use comic_stream.Common.{
  ℕ, ◌-◌, ◌≡◌, ◌||◌, ◌==◌, refl, true, false, Option, none, some, List, [], ◌∷◌, ◌++◌, arith,
  compare, if◌then◌else◌, leb, ltb, min, map, any, length, take,
}
use comic_stream.Ip.{IpAddr, v4, ip_eq}
use comic_stream.Text.{Text, codes, lowercase, split, trim, trim_start, trim_end, is_whitespace}
use comic_stream.Text.Decimal.{show}
use comic_stream.Order.{lex}
use comic_stream.Http.{Response, ok, done}
use comic_stream.Http.Instance.{function_headers}
use comic_stream.PeerIp.{client_ip_of, is_trusted, first_untrusted, hops_of, forwarded_or}
use comic_stream.PeerIp.Hops.{FindsIn, client_ip_of-FindsIn, client_ip_of-append}
use comic_stream.Natsort.{cmp, key}
use comic_stream.Natsort.Tokens.{tokens, token_cmp, cmp-lex}
use comic_stream.Natsort.Keys.{key-cmp}
use comic_stream.Range.{partial, unsatisfiable, parse_range, serve_file_with_range}
use comic_stream.Range.Bounds.{IsWithin, parse_range-IsWithin}
use comic_stream.Range.Forms.{parse_range-forms}
use comic_stream.Range.Resume.{Announces, serve_file_with_range-Announces, resume-completes}
use comic_stream.Opds.{esc}
use comic_stream.Opds.Escape.{unescape, unescape-esc}
use comic_stream.Thumb.Snap.{page_thumb_path-injective}
use comic_stream.Prefer.{parse_preference, is_separator, or_default}
use comic_stream.Prefer.Last.{is_thumbnail, last_width, parse_preference-tokens}

abbrev proxy : IpAddr
proxy = v4 (10 ∷ 0 ∷ 0 ∷ 1 ∷ [])

abbrev client : IpAddr
client = v4 (7 ∷ [])

-- A word stands for the address of its letters.
abbrev parse_ip : Text → Option IpAddr
parse_ip s = some (v4 (map (λ c. c - b'0') s))

client_ip_of-FindsIn_example :
    (is_trusted ip_eq (proxy ∷ []) proxy ≡ false
      → client_ip_of ip_eq parse_ip (proxy ∷ []) proxy (some (codes "5, 7")) ≡ proxy)
    × (is_trusted ip_eq (proxy ∷ []) proxy ≡ true
        → (found : Option IpAddr) × FindsIn ip_eq parse_ip
            (proxy ∷ [])
            (split (λ c. c == b',') (codes "5, 7"))
            found
          × (client_ip_of ip_eq parse_ip (proxy ∷ []) proxy (some (codes "5, 7"))
              ≡ forwarded_or proxy found))
client_ip_of-FindsIn_example = client_ip_of-FindsIn ip_eq parse_ip (proxy ∷ []) proxy (codes "5, 7")

seven_chosen : first_untrusted ip_eq parse_ip (proxy ∷ []) (hops_of (codes " 7")) ≡ some client
unfolding first_untrusted hops_of split trim trim_start trim_end is_whitespace is_trusted ip_eq
seven_chosen = refl

client_ip_of-append_example :
    client_ip_of ip_eq parse_ip (proxy ∷ []) proxy (some (codes "5" ++ b',' ∷ codes " 7"))
    ≡ client_ip_of ip_eq parse_ip (proxy ∷ []) proxy (some (codes " 7"))
client_ip_of-append_example =
    client_ip_of-append ip_eq parse_ip (proxy ∷ []) proxy client (codes "5") (codes " 7")
      seven_chosen

cmp-lex_example :
    cmp (codes "a2") (codes "a10") ≡ lex token_cmp (tokens (codes "a2")) (tokens (codes "a10"))
cmp-lex_example = cmp-lex (codes "a2") (codes "a10")

key-cmp_example :
    lex compare (key (codes "a2")) (key (codes "a10")) ≡ cmp (codes "a2") (codes "a10")
key-cmp_example =
    key-cmp (codes "a2") (codes "a10") (omega arith, tt) (omega arith, (omega arith, tt))

parse_range-IsWithin_example : IsWithin (parse_range (some (codes "bytes=-5")) 3) 3
parse_range-IsWithin_example = parse_range-IsWithin (some (codes "bytes=-5")) 3

parse_range-forms_example :
    (parse_range (some (codes "bytes=" ++ (show 5 ++ b'-' ∷ show 3))) 10
      ≡ (if leb 10 5 || ltb 3 5 then unsatisfiable else partial 5 (min 3 (10 - 1))))
    × (parse_range (some (codes "bytes=" ++ (show 5 ++ b'-' ∷ []))) 10
        ≡ (if leb 10 5 then unsatisfiable else partial 5 (10 - 1)))
    × (parse_range (some (codes "bytes=" ++ b'-' ∷ show 3)) 10
        ≡ (if 3 == 0 || 10 == 0 then unsatisfiable else partial (10 - 3) (10 - 1)))
parse_range-forms_example = parse_range-forms 5 3 10 (omega arith) (omega arith)

abbrev book : List ℕ
book = 80 ∷ 75 ∷ 3 ∷ 4 ∷ []

serve_file_with_range-Announces_example :
    (r : Response (function_headers.HeaderMap)) × (serve_file_with_range function_headers
        (done book)
        (λ _. done tt)
        (codes "application/zip")
        (some (codes "bytes=1-2"))
      ≡ ok r)
    × Announces function_headers (parse_range (some (codes "bytes=1-2")) (length book)) book r
serve_file_with_range-Announces_example =
    serve_file_with_range-Announces function_headers book (λ _. done tt) (λ _. refl)
      (codes "application/zip") (some (codes "bytes=1-2"))

resume-completes_example :
    (r : Response (function_headers.HeaderMap)) × (serve_file_with_range function_headers
        (done book)
        (λ _. done tt)
        (codes "application/zip")
        (some (codes "bytes=" ++ (show 3 ++ b'-' ∷ [])))
      ≡ ok r)
    × (r.status ≡ 206)
    × (take 3 book ++ r.body ≡ book)
resume-completes_example =
    resume-completes function_headers book (λ _. done tt) (λ _. refl) (codes "application/zip") 3
      (omega arith) (omega arith)

unescape-esc_example : unescape (esc (codes "Tom & 'Al' <1>")) ≡ some (codes "Tom & 'Al' <1>")
unescape-esc_example = unescape-esc (codes "Tom & 'Al' <1>")

abbrev third : ℕ
third = 3

abbrev medium : ℕ
medium = 600

page_thumb_path-injective_example : (codes "ab" ≡ codes "ab") × (third ≡ third) × (medium ≡ medium)
page_thumb_path-injective_example =
    page_thumb_path-injective (codes "data" ∷ []) (codes "ab") (codes "ab") third third medium
      medium refl

parse_preference-tokens_example : parse_preference (codes "variant=thumbnail; width=300") 600 ≡ (
    let tokens = split is_separator (lowercase (codes "variant=thumbnail; width=300")) in
    if any is_thumbnail tokens then some (or_default 600 (last_width tokens)) else none)
parse_preference-tokens_example = parse_preference-tokens (codes "variant=thumbnail; width=300") 600
