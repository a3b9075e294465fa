-- ===== src/Tests/Server.antt =====
-- Two servers with different libraries, asked by a client without the credentials.
use comic_stream.Common.{◌≡◌, ◌⊎◌, some, none, []}
use comic_stream.Text.{codes}
use comic_stream.Http.Instance.{function_headers}
use comic_stream.RateLimit.{new}
use comic_stream.Server.{feed, Contents, router, router-refused}
use comic_stream.Tests.Crypto.{shifted}
use comic_stream.Tests.Gate.{show_peer, contains, parse_ip, guess, creds, guess_refused}
use comic_stream.Tests.Catalog.{packages, refuses_no_query}
use comic_stream.Tests.Library.{before}
use comic_stream.Tests.Pages.{plain_images, world}
use comic_stream.Tests.Requests.{flags}

abbrev full_server : Contents shifted function_headers packages plain_images flags
full_server = record {
  world = world;
  db = before;
  refuses = refuses_no_query;
  files = λ _. none;
  chan = (flags.try_send flags.empty).1;
}

abbrev empty_server : Contents shifted function_headers packages plain_images flags
empty_server = record {
  world = world;
  db = record { folders = []; books = []; next_folder = 1; next_book = 1 };
  refuses = refuses_no_query;
  files = λ _. none;
  chan = flags.empty;
}

router-refused_example :
    (router shifted function_headers packages plain_images flags contains parse_ip show_peer
        (some (creds, []))
        (feed (codes "s"))
        full_server
        (new 2 60 300)
        5
        6
        guess
      ≡ router shifted function_headers packages plain_images flags contains parse_ip show_peer
          (some (creds, []))
          (feed (codes "s"))
          empty_server
          (new 2 60 300)
          5
          6
          guess)
    × (((router shifted function_headers packages plain_images flags contains parse_ip show_peer
            (some (creds, []))
            (feed (codes "s"))
            full_server
            (new 2 60 300)
            5
            6
            guess).response.status
          ≡ 401)
        ⊎ ((router shifted function_headers packages plain_images flags contains parse_ip show_peer
              (some (creds, []))
              (feed (codes "s"))
              full_server
              (new 2 60 300)
              5
              6
              guess).response.status
            ≡ 429))
router-refused_example =
    router-refused shifted function_headers packages plain_images flags contains parse_ip show_peer
      creds [] (feed (codes "s")) full_server empty_server (new 2 60 300) 5 6 guess (λ e. cc)
      guess_refused
