-- ===== src/PeerIp.antt =====
-- src/peer_ip.rs: the client's address behind trusted reverse proxies.
-- `contains` is that of the `ipnet` crate, `parse_ip` is `str::parse` at `IpAddr`.
pub mod Hops
use comic_stream.Common.{
  ℕ, Bool, true, false, ◌||◌, not, Option, none, some, List, [], ◌∷◌, reverse, any, ◌==◌,
  if◌then◌else◌,
}
use comic_stream.Ip.{IpAddr}
use comic_stream.Text.{Text, codes, split, trim, is_empty}
use comic_stream.Http.{Request}

-- `xff.rsplit(',')`
unfoldable pub hops_of : Text → List Text
hops_of xff = reverse (split (λ c. c == b',') xff)

unfoldable pub forwarded_or : IpAddr → Option IpAddr → IpAddr
forwarded_or peer none = peer
forwarded_or peer (some ip) = ip

module _ {Net : Type 0} (contains : Net → IpAddr → Bool) where
  unfoldable pub is_trusted : List Net → IpAddr → Bool
  is_trusted trusted ip = any (λ n. contains n ip) trusted

  module _ (parse_ip : Text → Option IpAddr) where
    -- The loop over the hops, from the right.
    unfoldable pub first_untrusted : List Net → List Text → Option IpAddr
    first_untrusted trusted [] = none
    first_untrusted trusted (hop ∷ hops) =
        let rest = first_untrusted trusted hops in
        elim (parse_ip (trim hop)) [
          | none ↦ rest
          | some ip ↦ if not (is_trusted trusted ip) then some ip else rest
        ]

    unfoldable pub client_ip_of : List Net → IpAddr → Option Text → IpAddr
    unfolding first_untrusted hops_of forwarded_or is_empty
    client_ip_of trusted peer xff =
        if is_empty trusted || not (is_trusted trusted peer) then peer else elim xff [
          | none ↦ peer
          | some hops ↦ forwarded_or peer (first_untrusted trusted (hops_of hops))
        ]

    unfoldable pub client_ip : List Net → Request → Option IpAddr
    unfolding client_ip_of
    client_ip trusted req = elim req.peer [
      | none ↦ none
      | some (peer, _) ↦ some (client_ip_of trusted peer (req.header (codes "x-forwarded-for")))
    ]
