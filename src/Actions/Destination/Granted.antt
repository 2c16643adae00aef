-- ===== src/Actions/Destination/Granted.antt =====
-- Which requests the operator's allowlist lets through.
use unifi_reactor.Base.{
  ℕ, true, false, not, ◌&&◌, ◌||◌, List, [], ◌∷◌, ◌++◌, some, ◌≡◌, ◌↔◌, ◌⊎◌, inl, inr, refl, ap,
  ◌∙◌, subst, arith, Bool-cases, Option-cases, ◌+◌, ltb,
}
use unifi_reactor.Base.Text.{Text, same, same_refl, same→eq, len}
use unifi_reactor.Actions.Destination.{
  Destination, Net, Policy, Url, accepted, any_matches, check, check_url, has_suffix, is_longer,
  matches, scheme_http, scheme_https, split_host_port,
}

is_longer_lem : (a b : Text) → is_longer a b ≡ ltb (len b) (len a)
unfolding is_longer len
is_longer_lem [] b = ground arith
is_longer_lem (r ∷ a) [] = ground arith
is_longer_lem (r ∷ a) (s ∷ b) = ground (arith, is_longer_lem a b)

len-++ : (a b : Text) → len (a ++ b) ≡ len a + len b
unfolding len
len-++ [] b = omega arith
len-++ (r ∷ a) b = omega (arith, len-++ a b)

has_suffix_split : (t s : Text) → has_suffix t s ≡ true → (l : Text) × (t ≡ l ++ s)
unfolding has_suffix
has_suffix_split [] s h = ([], same→eq [] s h)
has_suffix_split (r ∷ t) s h = elim (Bool-cases (same (r ∷ t) s)) [
  | inl e ↦ ([], same→eq (r ∷ t) s e)
  | inr e ↦
      let rest = has_suffix_split t s (ground arith) in
      (r ∷ rest.0, ap (λ (x : Text). r ∷ x) rest.1)
]

has_suffix-++ : (l s : Text) → has_suffix (l ++ s) s ≡ true
unfolding has_suffix same
has_suffix-++ [] [] = refl
has_suffix-++ [] (r ∷ s) = rw (same_refl (r ∷ s)) refl
has_suffix-++ (r ∷ l) s = ground (arith, has_suffix-++ l s)

-- The host is one of the domain: a label that is not empty, and the domain.
abbrev pub IsBelow : Text → Text → Type 0
IsBelow host domain = (r : ℕ) × (l : Text) × (host ≡ r ∷ (l ++ domain))

IsBelow-iff :
    (host domain : Text)
    → ((has_suffix host domain && is_longer host domain) ≡ true) ↔ IsBelow host domain
unfolding len
IsBelow-iff host domain = (to, from)
  where
    to : (has_suffix host domain && is_longer host domain) ≡ true → IsBelow host domain
    to h =
        let split = has_suffix_split host domain (ground arith) in
        labelled split.0 split.1 (ground arith)
      where
        labelled :
            (l : Text) → host ≡ l ++ domain → is_longer host domain ≡ true → IsBelow host domain
        labelled [] e k =
            let wrong : len host ≡ len domain = ap len e in
            ground (arith, is_longer_lem host domain, wrong)
        labelled (r ∷ l) e k = (r, l, e)

    from : IsBelow host domain → (has_suffix host domain && is_longer host domain) ≡ true
    from (r, l, e) =
        let longer : len host ≡ len (r ∷ l) + len domain = ap len e ∙ len-++ (r ∷ l) domain in
        let suffix : has_suffix host domain ≡ true = rw (e) (has_suffix-++ (r ∷ l) domain) in
        ground (arith, is_longer_lem host domain, longer, suffix)

-- What an entry of the allowlist lets through: everything, or its own scheme and port, with its own
-- host or, for a wildcard, a host below its domain.
abbrev pub Grants : Destination → Text → Text → Text → Type 0
Grants d scheme host port =
    (d.any ≡ true)
    ⊎ ((d.scheme ≡ scheme)
        × (d.port ≡ port)
        × (((d.wildcard ≡ true) × IsBelow host d.host) ⊎ ((d.wildcard ≡ false) × (d.host ≡ host))))

matches→Grants :
    (d : Destination) (scheme host port : Text)
    → matches d scheme host port ≡ true
    → Grants d scheme host port
unfolding matches
matches→Grants d scheme host port h = elim (Bool-cases d.any) [
  | inl a ↦ inl a
  | inr a ↦
      let s : same d.scheme scheme ≡ true = ground arith in
      let p : same d.port port ≡ true = ground arith in
      let at : d.scheme ≡ scheme = same→eq d.scheme scheme s in
      let on : d.port ≡ port = same→eq d.port port p in
      elim (Bool-cases d.wildcard) [
        | inl w ↦
            let k : (has_suffix host d.host && is_longer host d.host) ≡ true = ground arith in
            inr (at, on, inl (w, (IsBelow-iff host d.host).0 k))
        | inr w ↦
            let k : same d.host host ≡ true = ground arith in
            inr (at, on, inr (w, same→eq d.host host k))
      ]
]

-- Some entry lets it through.
abbrev pub AnyGrants : List Destination → Text → Text → Text → Type 0
AnyGrants [] scheme host port = ⊥
AnyGrants (d ∷ allowed) scheme host port =
    Grants d scheme host port ⊎ AnyGrants allowed scheme host port

any_matches→AnyGrants :
    (allowed : List Destination) (scheme host port : Text)
    → any_matches allowed scheme host port ≡ true
    → AnyGrants allowed scheme host port
unfolding any_matches
any_matches→AnyGrants [] scheme host port h = ground arith
any_matches→AnyGrants (d ∷ allowed) scheme host port h =
    elim (Bool-cases (matches d scheme host port)) [
      | inl e ↦ inl (matches→Grants d scheme host port e)
      | inr e ↦ inr (any_matches→AnyGrants allowed scheme host port (ground arith))
    ]

module _ (net : Net) where
  -- What a request's URL must be, for the policy to let it through: over http or https, without user
  -- information, with a host, and granted by an entry.
  abbrev pub IsPermitted : Policy → Url → Type 0
  IsPermitted p u =
      let scheme = net.to_lower u.scheme in
      let (host, port) = split_host_port net u.host scheme in
      ((scheme ≡ scheme_http) ⊎ (scheme ≡ scheme_https))
      × (u.has_user ≡ false)
      × (same u.host [] ≡ false)
      × (same host [] ≡ false)
      × AnyGrants p.allowed scheme host port

  check_url-IsPermitted :
      (p : Policy) (v u : Url) (origin : Text)
      → check_url net p v ≡ accepted u origin
      → (v ≡ u) × IsPermitted p v
  unfolding check_url
  check_url-IsPermitted p v u origin e =
      let scheme = net.to_lower v.scheme in
      let host = (split_host_port net v.host scheme).0 in
      let port = (split_host_port net v.host scheme).1 in
      let web : (not (same scheme scheme_http) && not (same scheme scheme_https)) ≡ false =
        ground arith in
      let named : (same v.host [] || same host []) ≡ false = ground arith in
      let user : v.has_user ≡ false = ground arith in
      let matched : any_matches p.allowed scheme host port ≡ true = ground arith in
      let result : v ≡ u = ground arith in
      (
        result,
        (
          ground (arith, web, same→eq scheme scheme_http, same→eq scheme scheme_https),
          user,
          ground (arith, named),
          ground (arith, named),
          any_matches→AnyGrants p.allowed scheme host port matched,
        ),
      )

  pub check-IsPermitted :
      (p : Policy) (raw : Text) (u : Url) (origin : Text)
      → check net p raw ≡ accepted u origin
      → (net.parse_url raw ≡ some u) × IsPermitted p u
  unfolding check
  check-IsPermitted p raw u origin e = elim (Option-cases (net.parse_url raw)) [
    | inl k ↦ ground (arith, k)
    | inr (v, k) ↦
        let checked : check_url net p v ≡ accepted u origin = rw (check, k) at e in
        let h = check_url-IsPermitted p v u origin checked in
        (k ∙ ap (λ (x : Url). some x) h.0, subst (IsPermitted p) h.0 h.1)
  ]
