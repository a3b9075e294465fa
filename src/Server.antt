-- ===== src/Server.antt =====
-- src/routes.rs, `router` and `health`; the part of src/main.rs that puts the server together. Which route a path is,
-- with the values in it, is axum's to say.
use comic_stream.Common.{
  ℕ, ◌≡◌, refl, Bool, true, false, Option, none, some, List, [], ◌⊎◌, if◌then◌else◌,
}
use comic_stream.Ip.{IpAddr}
use comic_stream.Text.{Text, codes}
use comic_stream.Http.{HeaderLib, Request, Response, Result, ok, err, error_response}
use comic_stream.RateLimit.{Limiter}
use comic_stream.Auth.{CryptoLib, verify}
use comic_stream.Auth.Gate.{Outcome, require_basic}
use comic_stream.Auth.Gate.Laws.{require_basic-refused}
use comic_stream.Thumb.Files.{ImageLib, Files}
use comic_stream.Db.{Db}
use comic_stream.Books.{ℤ, World, book_page, book_cover, book_thumbnail, book_file}
use comic_stream.Catalog.{
  Query, Packages, opds_root, opds_folder, opds_search, opensearch_descriptor, folder_cover,
}
use comic_stream.Rescan.{Channel, admin_rescan}

pub data Route : Type 0 where
  health root opensearch admin : Route
  search feed cover_of_folder cover_of_book thumbnail file : Text → Route
  page : Text → ℤ → Bool → Route

-- The routes outside the middleware.
abbrev pub is_public : Route → Bool
is_public health = true
is_public _ = false

health_alone : (route : Route) → ¬ (route ≡ health) → is_public route ≡ false
health_alone health n = absurd (n refl)
health_alone root n = refl
health_alone opensearch n = refl
health_alone admin n = refl
health_alone (search q) n = refl
health_alone (feed slug) n = refl
health_alone (cover_of_folder slug) n = refl
health_alone (cover_of_book hash) n = refl
health_alone (thumbnail hash) n = refl
health_alone (file hash) n = refl
health_alone (page hash n one_based) k = refl

module _ (crypto : CryptoLib) (lib : HeaderLib) (packages : Packages) (images : ImageLib)
    (channel : Channel) where
  open crypto use {Digest}
  open lib use {HeaderMap, empty}

  -- All that the handlers work on: the database, with the queries that fail, the files, and the channel.
  pub record Contents : Type 0 where
    pub world : World
    pub db : Db
    pub refuses : Query → Option Text
    pub files : Files
    pub chan : channel.State

  abbrev answered : Result (Response HeaderMap) → Response HeaderMap
  answered (ok resp) = resp
  answered (err e) = error_response lib e

  abbrev answered_with_files : Result (Response HeaderMap × Files) → Response HeaderMap
  answered_with_files (ok (resp, files)) = resp
  answered_with_files (err e) = error_response lib e

  abbrev plain : ℕ × Text → Response HeaderMap
  plain (status, text) = record { status = status; headers = empty; body = text }

  -- The response of a route's handler.
  unfoldable pub answer : Route → Contents → Request → Response HeaderMap
  answer health s req = plain (200, codes "ok")
  answer root s req = answered (opds_root lib packages s.refuses s.db)
  answer opensearch s req = opensearch_descriptor lib packages s.refuses s.db
  answer admin s req = plain (admin_rescan channel s.chan).0
  answer (search q) s req = answered (opds_search lib packages s.refuses s.db q)
  answer (feed slug) s req = answered (opds_folder lib packages s.refuses s.db slug)
  answer (cover_of_folder slug) s req =
      answered_with_files (folder_cover lib packages s.refuses s.db images s.world slug s.files)
  answer (cover_of_book hash) s req = answered (book_cover lib images s.world hash)
  answer (thumbnail hash) s req =
      answered_with_files (book_thumbnail lib images s.world hash s.files)
  answer (file hash) s req =
      answered (book_file lib images s.world hash (req.header (codes "range")))
  answer (page hash n one_based) s req =
      answered_with_files (book_page lib images s.world hash n one_based req s.files)

  module _ {Net : Type 0} (contains : Net → IpAddr → Bool) (parse_ip : Text → Option IpAddr)
      (show_peer : IpAddr × ℕ → Text) where
    -- The router with its middleware, if the server has credentials.
    unfoldable pub router :
        Option (Digest × List Net)
        → Route
        → Contents
        → Limiter
        → ℕ
        → ℕ
        → Request
        → Outcome HeaderMap
    unfolding answer
    router setup route s l checked noted req =
        if is_public route
        then record { limiter = l; response = answer route s req; log = [] }
        else elim setup [
          | none ↦ record { limiter = l; response = answer route s req; log = [] }
          | some (creds, trusted) ↦
              require_basic crypto lib show_peer contains parse_ip creds trusted l checked noted req
                (answer route s)
        ]

    -- A server with credentials tells nothing of its library without them: on every route but `/health`, a request
    -- without the credentials gets a 401 or a 429, and the response, the limiter and the log are the same
    -- whatever the database, the files and the channel hold.
    pub router-refused :
        (creds : Digest) (trusted : List Net) (route : Route) (s t : Contents) (l : Limiter)
        (checked noted : ℕ) (req : Request)
        → ¬ (route ≡ health)
        → verify crypto creds (req.header (codes "authorization")) ≡ false
        → (router (some (creds, trusted)) route s l checked noted req
            ≡ router (some (creds, trusted)) route t l checked noted req)
          × (((router (some (creds, trusted)) route s l checked noted req).response.status ≡ 401)
              ⊎ ((router (some (creds, trusted)) route s l checked noted req).response.status
                  ≡ 429))
    unfolding router
    router-refused creds trusted route s t l checked noted req protected wrong =
        rw (router, health_alone route protected)
          (require_basic-refused crypto lib show_peer contains parse_ip creds trusted l checked
            noted req (answer route s) (answer route t) wrong)
