-- ===== src/Ip.antt =====
-- `std::net::IpAddr`: an address by its octets, four or sixteen of them.
use comic_stream.Common.{
  ℕ, ◌≡◌, ap, ◌↔◌, Bool, true, false, List, list_eq, list_eq_sound, list_eq_refl, arith, subst,
}

pub data IpAddr : Type 0 where
  v4 : List ℕ → IpAddr
  v6 : List ℕ → IpAddr

-- `==` on addresses, the equality of a hash map's keys.
unfoldable pub ip_eq : IpAddr → IpAddr → Bool
ip_eq (v4 a) (v4 b) = list_eq a b
ip_eq (v6 a) (v6 b) = list_eq a b
ip_eq (v4 a) (v6 b) = false
ip_eq (v6 a) (v4 b) = false

ip_eq_sound : (a b : IpAddr) → ip_eq a b ≡ true → a ≡ b
unfolding ip_eq
ip_eq_sound (v4 a) (v4 b) h = ap v4 (list_eq_sound a b h)
ip_eq_sound (v6 a) (v6 b) h = ap v6 (list_eq_sound a b h)
ip_eq_sound (v4 a) (v6 b) h = ground arith
ip_eq_sound (v6 a) (v4 b) h = ground arith

pub ip_eq_refl : (a : IpAddr) → ip_eq a a ≡ true
unfolding ip_eq
ip_eq_refl (v4 a) = list_eq_refl a
ip_eq_refl (v6 a) = list_eq_refl a

pub ip_eq_iff : (a b : IpAddr) → (ip_eq a b ≡ true) ↔ (a ≡ b)
ip_eq_iff a b = (ip_eq_sound a b, λ e. subst (λ x. ip_eq a x ≡ true) e (ip_eq_refl a))
