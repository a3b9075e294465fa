-- ===== src/Http/Instance.antt =====
-- A header map as a function from names, which meets the interface of `http::HeaderMap`.
use comic_stream.Common.{
  ℕ, ◌≡◌, refl, true, Option, none, some, arith, ◌==◌, if◌then◌else◌, ==_refl,
}
use comic_stream.Text.{Text}
use comic_stream.Http.{HeaderName, HeaderLib, number}

abbrev Headers : Type 0
Headers = ℕ → Option Text

put : HeaderName → Text → Headers → Headers
put n v m = λ k. if k == number n then some v else m k

drop_name : HeaderName → Headers → Headers
drop_name n m = λ k. if k == number n then none else m k

read : HeaderName → Headers → Option Text
read n m = m (number n)

read-put : (n : HeaderName) (v : Text) (m : Headers) → read n (put n v m) ≡ some v
unfolding read put
read-put n v m = rw (==_refl (number n))

read-put_ne :
    (n k : HeaderName) (v : Text) (m : Headers)
    → ¬ (number n ≡ number k)
    → read k (put n v m) ≡ read k m
unfolding read put
read-put_ne n k v m h = ground arith

read-drop_name : (n : HeaderName) (m : Headers) → read n (drop_name n m) ≡ none
unfolding read drop_name
read-drop_name n m = rw (==_refl (number n))

read-drop_name_ne :
    (n k : HeaderName) (m : Headers) → ¬ (number n ≡ number k) → read k (drop_name n m) ≡ read k m
unfolding read drop_name
read-drop_name_ne n k m h = ground arith

abbrev pub function_headers : HeaderLib
unfolding read put drop_name read-put read-put_ne read-drop_name read-drop_name_ne
function_headers = record {
  HeaderMap = Headers;
  empty = λ _. none;
  insert = put;
  remove = drop_name;
  get = read;
  accepts = λ _. true;
  get-empty = λ n. refl;
  get-insert_self = read-put;
  get-insert_ne = read-put_ne;
  get-remove_self = read-drop_name;
  get-remove_ne = read-drop_name_ne;
}
