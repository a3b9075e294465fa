-- ===== src/Http.antt =====
-- What the handlers of src/routes.rs and src/auth.rs use of HTTP: responses, errors, and the header
-- map of the `http` package as an interface.
pub mod Instance
use comic_stream.Common.{ℕ, ◌≡◌, Bool, true, false, Option, none, some, List, if◌then◌else◌}
use comic_stream.Ip.{IpAddr}
use comic_stream.Text.{Text, codes}

-- The header names that the responses set.
pub data HeaderName : Type 0 where
  content_type content_length content_range accept_ranges cache_control vary : HeaderName
  x_content_type_options retry_after www_authenticate : HeaderName

abbrev pub number : HeaderName → ℕ
number content_type = 0
number content_length = 1
number content_range = 2
number accept_ranges = 3
number cache_control = 4
number vary = 5
number x_content_type_options = 6
number retry_after = 7
number www_authenticate = 8

-- `http::HeaderMap`: `insert` replaces the values of a name, `remove` drops them, `get` reads the
-- first. `accepts` says which texts `HeaderValue::from_str` takes.
pub record HeaderLib : Type 1 where
  pub HeaderMap : Type 0
  pub empty : HeaderMap
  pub insert : HeaderName → Text → HeaderMap → HeaderMap
  pub remove : HeaderName → HeaderMap → HeaderMap
  pub get : HeaderName → HeaderMap → Option Text
  pub accepts : Text → Bool
  pub get-empty : (n : HeaderName) → get n empty ≡ none
  pub get-insert_self : (n : HeaderName) (v : Text) (m : HeaderMap) → get n (insert n v m) ≡ some v
  pub get-insert_ne :
      (n k : HeaderName) (v : Text) (m : HeaderMap)
      → ¬ (number n ≡ number k)
      → get k (insert n v m) ≡ get k m
  pub get-remove_self : (n : HeaderName) (m : HeaderMap) → get n (remove n m) ≡ none
  pub get-remove_ne :
      (n k : HeaderName) (m : HeaderMap) → ¬ (number n ≡ number k) → get k (remove n m) ≡ get k m

pub record Response (H : Type 0) : Type 0 where
  pub status : ℕ
  pub headers : H
  pub body : List ℕ

-- What the middleware reads of a request: the peer of the TCP connection (`ConnectInfo`), the path,
-- and the first value of a header if that is visible ASCII (`.get(name).and_then(to_str)`).
pub record Request : Type 0 where
  pub peer : Option (IpAddr × ℕ)
  pub path : Text
  pub header : Text → Option Text

-- `routes::AppError`
pub data AppError : Type 0 where
  not_found : AppError
  internal : Text → AppError

pub data Result {ℓ} (A : Type ℓ) : Type ℓ where
  ok : A → Result A
  err : AppError → Result A

infixl 5 ◌>>=◌
abbrev pub ◌>>=◌ {ℓ κ} : {A : Type ℓ} {B : Type κ} → Result A → (A → Result B) → Result B
ok a >>= f = f a
err e >>= f = err e

-- `.ok_or(AppError::NotFound)?`
abbrev pub ok_or_not_found {ℓ} : {A : Type ℓ} → Option A → Result A
ok_or_not_found none = err not_found
ok_or_not_found (some a) = ok a

-- What an operation outside the program answers: a value, or an error with its message.
pub data Outside {ℓ} (A : Type ℓ) : Type ℓ where
  done : A → Outside A
  failed : Text → Outside A

-- `.map_err(|e| AppError::Internal(e.to_string()))?`
abbrev pub or_internal {ℓ} : {A : Type ℓ} → Outside A → Result A
or_internal (done a) = ok a
or_internal (failed message) = err (internal message)

module _ (lib : HeaderLib) where
  open lib use {HeaderMap, empty, insert}

  -- `apply_common_security_headers`
  unfoldable pub apply_common_security_headers : Text → HeaderMap → HeaderMap
  apply_common_security_headers cache headers =
      insert x_content_type_options (codes "nosniff")
        (insert vary (codes "Authorization") (insert cache_control cache headers))

  unfoldable pub apply_immutable_response_headers : HeaderMap → HeaderMap
  unfolding apply_common_security_headers
  apply_immutable_response_headers headers =
      apply_common_security_headers (codes "private, max-age=86400") headers

  unfoldable pub apply_feed_response_headers : HeaderMap → HeaderMap
  unfolding apply_common_security_headers
  apply_feed_response_headers headers =
      apply_common_security_headers (codes "private, max-age=60") headers

  -- `content_type_value`
  unfoldable pub content_type_value : Text → Text
  content_type_value value = if lib.accepts value then value else codes "application/octet-stream"

  -- `IntoResponse for AppError`; the message of an internal error is logged, not sent. Headers that
  -- the web framework adds by itself are left out.
  unfoldable pub error_response : AppError → Response HeaderMap
  error_response not_found = record { status = 404; headers = empty; body = codes "not found" }
  error_response (internal message) = record {
    status = 500;
    headers = empty;
    body = codes "internal error";
  }
