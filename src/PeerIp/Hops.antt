-- ===== src/PeerIp/Hops.antt =====
-- src/peer_ip.rs: which hop is taken for the client, and what a client can forge.
use comic_stream.Common.{
  ℕ, ◌≡◌, refl, Bool, true, false, Option, none, some, List, [], ◌∷◌, ◌++◌, reverse, arith,
  Option-cases, Bool-cases, inl, inr, ◌⊎◌, All, ap, sym, subst, ◌∙◌, ◌==◌, All-append,
}
use mathlib.Core.List.{reverse-append, reverse-reverse, append_assoc}
use comic_stream.Ip.{IpAddr}
use comic_stream.Text.{Text, split, trim, is_empty, cons_first}
use comic_stream.PeerIp.{is_trusted, first_untrusted, hops_of, forwarded_or, client_ip_of}

split-cons : (q : ℕ) (s : Text) → (t : Text) × (ts : List Text) × (split (λ c. c == q) s ≡ t ∷ ts)
unfolding split
split-cons q [] = ([], [], refl)
split-cons q (c ∷ s) = elim (Bool-cases (c == q)) [
  | inl cut ↦ ([], split (λ d. d == q) s, rw cut refl)
  | inr kept ↦ let (t, ts, e) = split-cons q s in (c ∷ t, ts, rw (kept, e) refl)
]

cons_first-append :
    (c : ℕ) {xs : List Text} (ys : List Text)
    → (t : Text) × (ts : List Text) × (xs ≡ t ∷ ts)
    → cons_first c (xs ++ ys) ≡ cons_first c xs ++ ys
cons_first-append c ys (t, ts, e) = rw e refl

split-append :
    (q : ℕ) (s t : Text)
    → split (λ c. c == q) (s ++ q ∷ t) ≡ split (λ c. c == q) s ++ split (λ c. c == q) t
unfolding split
split-append q [] t = ground arith
split-append q (c ∷ s) t = elim (Bool-cases (c == q)) [
  | inl cut ↦ rw (cut, split-append q s t)
  | inr kept ↦ rw (kept, split-append q s t) (cons_first-append c _ (split-cons q s))
]

-- The hops of a header that was extended on the right come first.
hops_of-append : (s t : Text) → hops_of (s ++ b',' ∷ t) ≡ hops_of t ++ hops_of s
unfolding hops_of
hops_of-append s t =
    ap reverse (split-append b',' s t)
    ∙ reverse-append (split (λ c. c == b',') s) (split (λ c. c == b',') t)

All-reverse {ℓ κ} : {A : Type ℓ} (P : A → Type κ) (xs : List A) → All P xs → All P (reverse xs)
All-reverse P [] h = tt
All-reverse P (x ∷ xs) h =
    subst (All P) (sym (reverse-append (x ∷ []) xs))
      (All-append P (reverse xs) (x ∷ []) (All-reverse P xs h.1) (h.0, tt))

reverse-around {ℓ} :
    {A : Type ℓ} (xs : List A) (x : A) (ys : List A)
    → reverse (xs ++ x ∷ ys) ≡ reverse ys ++ x ∷ reverse xs
reverse-around xs x ys =
    reverse-append xs (x ∷ ys)
    ∙ ap (λ l. l ++ reverse xs) (reverse-append (x ∷ []) ys)
    ∙ append_assoc (reverse ys) (x ∷ []) (reverse xs)

is_trusted-empty :
    {Net : Type 0} (contains : Net → IpAddr → Bool) (trusted : List Net) (ip : IpAddr)
    → is_empty trusted ≡ true
    → is_trusted contains trusted ip ≡ false
unfolding is_empty is_trusted
is_trusted-empty contains [] ip h = refl
is_trusted-empty contains (n ∷ trusted) ip h = cc

module _ {Net : Type 0} (contains : Net → IpAddr → Bool) (parse_ip : Text → Option IpAddr)
    (trusted : List Net) where
  -- A hop that is passed over: it is no address, or a trusted one.
  abbrev pub IsPassed : Text → Type 0
  IsPassed hop =
      (parse_ip (trim hop) ≡ none)
      ⊎ ((ip : IpAddr) × (parse_ip (trim hop) ≡ some ip) × (is_trusted contains trusted ip ≡ true))

  -- The hop that is chosen: an untrusted address with none but passed hops nearer to the server.
  pub record IsChosen (hops : List Text) (ip : IpAddr) : Type 0 where
    pub nearer : List Text
    pub hop : Text
    pub farther : List Text
    pub parts : hops ≡ nearer ++ hop ∷ farther
    pub passed : All IsPassed nearer
    pub address : parse_ip (trim hop) ≡ some ip
    pub untrusted : is_trusted contains trusted ip ≡ false

  IsChosen-cons :
      {hop : Text} {hops : List Text} {ip : IpAddr}
      → IsPassed hop
      → IsChosen hops ip
      → IsChosen (hop ∷ hops) ip
  IsChosen-cons {hop} p c = record {
    nearer = hop ∷ c.nearer;
    hop = c.hop;
    farther = c.farther;
    parts = ap (◌∷◌ hop) c.parts;
    passed = (p, c.passed);
    address = c.address;
    untrusted = c.untrusted;
  }

  -- What the loop finds: a chosen hop, or nothing if every hop is passed over.
  abbrev pub Finds : List Text → Option IpAddr → Type 0
  Finds hops none = All IsPassed hops
  Finds hops (some ip) = IsChosen hops ip

  Finds-cons :
      (hop : Text) (hops : List Text) (o : Option IpAddr)
      → IsPassed hop
      → Finds hops o
      → Finds (hop ∷ hops) o
  Finds-cons hop hops none p f = (p, f)
  Finds-cons hop hops (some ip) p f = IsChosen-cons p f

  first_untrusted-passed :
      (hop : Text) (hops : List Text)
      → IsPassed hop
      → first_untrusted contains parse_ip trusted (hop ∷ hops)
        ≡ first_untrusted contains parse_ip trusted hops
  unfolding first_untrusted
  first_untrusted-passed hop hops (inl no_address) = rw (first_untrusted, no_address) refl
  first_untrusted-passed hop hops (inr (ip, address, known)) =
      rw (first_untrusted, address, known) refl

  first_untrusted-chosen :
      (hop : Text) (hops : List Text) (ip : IpAddr)
      → parse_ip (trim hop) ≡ some ip
      → is_trusted contains trusted ip ≡ false
      → first_untrusted contains parse_ip trusted (hop ∷ hops) ≡ some ip
  unfolding first_untrusted
  first_untrusted-chosen hop hops ip address foreign = rw (first_untrusted, address, foreign) refl

  -- Every hop is passed over or chosen.
  hop_cases :
      (hop : Text)
      → IsPassed hop
        ⊎ ((ip : IpAddr) × (parse_ip (trim hop) ≡ some ip)
            × (is_trusted contains trusted ip ≡ false))
  hop_cases hop = elim (Option-cases (parse_ip (trim hop))) [
    | inl no_address ↦ inl (inl no_address)
    | inr (ip, address) ↦ elim (Bool-cases (is_trusted contains trusted ip)) [
      | inl known ↦ inl (inr (ip, address, known))
      | inr foreign ↦ inr (ip, address, foreign)
    ]
  ]

  first_untrusted-Finds :
      (hops : List Text) → Finds hops (first_untrusted contains parse_ip trusted hops)
  first_untrusted-Finds [] = unfold first_untrusted in tt
  first_untrusted-Finds (hop ∷ hops) = elim (hop_cases hop) [
    | inl p ↦
        subst (Finds (hop ∷ hops)) (sym (first_untrusted-passed hop hops p))
          (Finds-cons hop hops _ p (first_untrusted-Finds hops))
    | inr (ip, address, foreign) ↦
        subst (Finds (hop ∷ hops)) (sym (first_untrusted-chosen hop hops ip address foreign))
          (record {
            nearer = [];
            hop = hop;
            farther = hops;
            parts = refl;
            passed = tt;
            address = address;
            untrusted = foreign;
          })
  ]

  first_untrusted-append :
      (hops more : List Text) (ip : IpAddr)
      → first_untrusted contains parse_ip trusted hops ≡ some ip
      → first_untrusted contains parse_ip trusted (hops ++ more) ≡ some ip
  first_untrusted-append [] more ip h = unfold first_untrusted in cc
  first_untrusted-append (hop ∷ hops) more ip h = elim (hop_cases hop) [
    | inl p ↦
        first_untrusted-passed hop (hops ++ more) p
        ∙ first_untrusted-append hops more ip (sym (first_untrusted-passed hop hops p) ∙ h)
    | inr (ip', address, foreign) ↦
        first_untrusted-chosen hop (hops ++ more) ip' address foreign
        ∙ sym (first_untrusted-chosen hop hops ip' address foreign)
        ∙ h
  ]

  -- The same for the hops as the header lists them, where each proxy has put its entry at the end: a
  -- hop nearer to the server stands further to the right.
  pub record IsRightmost (hops : List Text) (ip : IpAddr) : Type 0 where
    pub to_the_left : List Text
    pub hop : Text
    pub to_the_right : List Text
    pub parts : hops ≡ to_the_left ++ hop ∷ to_the_right
    pub passed : All IsPassed to_the_right
    pub address : parse_ip (trim hop) ≡ some ip
    pub untrusted : is_trusted contains trusted ip ≡ false

  -- What is found in a header: its rightmost untrusted address, or nothing if every hop is passed over.
  abbrev pub FindsIn : List Text → Option IpAddr → Type 0
  FindsIn hops none = All IsPassed hops
  FindsIn hops (some ip) = IsRightmost hops ip

  Finds-FindsIn : (hops : List Text) (o : Option IpAddr) → Finds (reverse hops) o → FindsIn hops o
  Finds-FindsIn hops none f = subst (All IsPassed) (reverse-reverse hops) (All-reverse IsPassed _ f)
  Finds-FindsIn hops (some ip) f = record {
    to_the_left = reverse f.farther;
    hop = f.hop;
    to_the_right = reverse f.nearer;
    parts =
        sym (reverse-reverse hops) ∙ ap reverse f.parts ∙ reverse-around f.nearer f.hop f.farther;
    passed = All-reverse IsPassed f.nearer f.passed;
    address = f.address;
    untrusted = f.untrusted;
  }

  -- A peer that is no trusted proxy is the client itself, whatever it forwards. Behind a trusted
  -- one, the client is the rightmost untrusted address among the entries of the header, which commas
  -- separate, or the peer if there is none.
  pub client_ip_of-FindsIn :
      (peer : IpAddr) (xff : Text)
      → (is_trusted contains trusted peer ≡ false
          → client_ip_of contains parse_ip trusted peer (some xff) ≡ peer)
        × (is_trusted contains trusted peer ≡ true
            → (found : Option IpAddr) × FindsIn (split (λ c. c == b',') xff) found
              × (client_ip_of contains parse_ip trusted peer (some xff) ≡ forwarded_or peer found))
  unfolding client_ip_of hops_of
  client_ip_of-FindsIn peer xff = (
    λ foreign. ground arith,
    λ known. (
      first_untrusted contains parse_ip trusted (hops_of xff),
      Finds-FindsIn (split (λ c. c == b',') xff) _ (first_untrusted-Finds (hops_of xff)),
      ground (arith, is_trusted-empty contains trusted peer),
    ),
  )

  -- Where the forwarded hops hold an untrusted address, what is put in front of them, as a client
  -- may forge it, changes nothing.
  pub client_ip_of-append :
      (peer ip : IpAddr) (forged xff : Text)
      → first_untrusted contains parse_ip trusted (hops_of xff) ≡ some ip
      → client_ip_of contains parse_ip trusted peer (some (forged ++ b',' ∷ xff))
        ≡ client_ip_of contains parse_ip trusted peer (some xff)
  unfolding client_ip_of
  client_ip_of-append peer ip forged xff h =
      let longer =
        ap (first_untrusted contains parse_ip trusted) (hops_of-append forged xff)
        ∙ first_untrusted-append (hops_of xff) (hops_of forged) ip h
        ∙ sym h in
      rw longer refl
