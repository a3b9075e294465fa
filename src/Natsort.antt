-- ===== src/Natsort.antt =====
-- src/natsort.rs: the natural order of names, and the sort keys that the database orders by.
pub mod Tokens
pub mod Runs
pub mod Keys
use comic_stream.Common.{
  ℕ, zero, suc, ◌+◌, ◌-◌, ◌*◌, ◌&&◌, List, [], ◌∷◌, ◌++◌, compare, Ordering, min, length, replicate,
  if◌then◌else◌,
}
use comic_stream.Text.{Text, is_ascii_digit, to_ascii_lowercase, digit_value}
use comic_stream.Order.{and_then}

abbrev pub u128_max : ℕ
u128_max = 0xffff_ffff_ffff_ffff_ffff_ffff_ffff_ffff

-- `n.saturating_mul(10).saturating_add(d)`
unfoldable pub push_digit : ℕ → ℕ → ℕ
push_digit n c = min (min (n * 10) u128_max + digit_value c) u128_max

-- `take_number`: the number, and what the iterator has left.
unfoldable pub take_number_from : ℕ → Text → ℕ × Text
unfolding push_digit
take_number_from n [] = (n, [])
take_number_from n (c ∷ s) =
    let rest = take_number_from (push_digit n c) s in if is_ascii_digit c then rest else (n, c ∷ s)

unfoldable pub take_number : Text → ℕ × Text
unfolding take_number_from
take_number s = take_number_from 0 s

-- The loop of `cmp`, by fuel: every round takes a character of the first name at least.
unfoldable pub cmp_loop : ℕ → Text → Text → Ordering
unfolding take_number
cmp_loop zero a b = Ordering.eq
cmp_loop (suc f) [] [] = Ordering.eq
cmp_loop (suc f) [] (cb ∷ b) = Ordering.lt
cmp_loop (suc f) (ca ∷ a) [] = Ordering.gt
cmp_loop (suc f) (ca ∷ a) (cb ∷ b) =
    let numbers =
      let (na, ra) = take_number (ca ∷ a) in
      let (nb, rb) = take_number (cb ∷ b) in and_then (compare na nb) (cmp_loop f ra rb) in
    let letters =
      and_then (compare (to_ascii_lowercase ca) (to_ascii_lowercase cb)) (cmp_loop f a b) in
    if is_ascii_digit ca && is_ascii_digit cb then numbers else letters

unfoldable pub cmp : Text → Text → Ordering
unfolding cmp_loop
cmp a b = cmp_loop (suc (length a)) a b

-- The inner loop of `key`: the digits in front, and the rest.
unfoldable pub take_digits : Text → Text × Text
take_digits [] = ([], [])
take_digits (c ∷ s) =
    let (digits, rest) = take_digits s in
    if is_ascii_digit c then (c ∷ digits, rest) else ([], c ∷ s)

-- `format!("{:0>20}", digits)`
unfoldable pub pad : Text → Text
pad digits = replicate (20 - length digits) b'0' ++ digits

unfoldable pub key_loop : ℕ → Text → Text
unfolding take_digits pad
key_loop zero s = []
key_loop (suc f) [] = []
key_loop (suc f) (c ∷ s) =
    let number = let (digits, rest) = take_digits (c ∷ s) in pad digits ++ key_loop f rest in
    let letter = to_ascii_lowercase c ∷ key_loop f s in if is_ascii_digit c then number else letter

unfoldable pub key : Text → Text
unfolding key_loop
key s = key_loop (length s) s
