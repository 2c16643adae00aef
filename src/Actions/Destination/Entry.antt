-- ===== src/Actions/Destination/Entry.antt =====
-- What one entry of the allowlist says, as it is written.
use unifi_reactor.Base.{
  true, false, not, ◌&&◌, [], ◌∷◌, ◌++◌, if◌then◌else◌, ◌≡◌, ◌⊎◌, inl, inr, refl, sym, subst, arith,
  Bool-cases, Option-cases, none, some, ◌==◌,
}
use unifi_reactor.Base.Text.{Text, codes, same, same→eq}
use unifi_reactor.Unifi.Slug.{trim_space}
use unifi_reactor.Actions.Destination.{
  Destination, Net, Parsed, Url, parse_destination, misplaced_wildcard, parsed, rejected,
  split_host_port, contains_any, cut_prefix, scheme_http, scheme_https, wildcard_prefix,
}
use unifi_reactor.Actions.Destination.Granted.{Grants, IsBelow}

cut_prefix-++ : (s p t : Text) → cut_prefix s p ≡ some t → s ≡ p ++ t
unfolding cut_prefix
cut_prefix-++ s [] t h = ground (arith, h)
cut_prefix-++ [] (q ∷ p) t h = ground (arith, h)
cut_prefix-++ (r ∷ s) (q ∷ p) t h = elim (Bool-cases (r == q)) [
  | inr e ↦ absurd (ground (arith, h, e))
  | inl e ↦
      let rest = cut_prefix-++ s p t (ground (arith, h, e)) in
      let head : r ≡ q = ground (arith, e) in rw (head, rest) refl
]

parsed_inj : {d e : Destination} → parsed d ≡ parsed e → d ≡ e
parsed_inj h = cc h

module _ (net : Net) where
  -- The host of a request is the written one, or, for a written `*.domain`, a host below `.domain`.
  abbrev pub NamesHost : Text → Text → Type 0
  NamesHost written host =
      ((domain : Text) × (written ≡ wildcard_prefix ++ domain) × IsBelow host (codes "." ++ domain))
      ⊎ ((contains_any written ≡ false) × (written ≡ host))

  -- What an entry says as it is written: it is a URL over http or https, without a path, and the scheme,
  -- the port (the scheme's own if none is written) and the host are those of its text.
  abbrev pub Allows : Text → Text → Text → Text → Type 0
  Allows entry scheme host port =
      (u : Url) × (net.parse_url (trim_space entry) ≡ some u)
      × ((u.scheme ≡ scheme_http) ⊎ (u.scheme ≡ scheme_https))
      × ((u.path ≡ []) ⊎ (u.path ≡ codes "/"))
      × (u.scheme ≡ scheme)
      × ((split_host_port net u.host u.scheme).1 ≡ port)
      × NamesHost (net.to_lower (split_host_port net u.host u.scheme).0) host

  -- A destination that is one entry grants what the entry says.
  of_wildcard :
      (d : Destination) (scheme host port : Text)
      → d.any ≡ false
      → d.wildcard ≡ true
      → Grants d scheme host port
      → (d.scheme ≡ scheme) × (d.port ≡ port) × IsBelow host d.host
  of_wildcard d scheme host port a w (inl g) = ground (arith, a, g)
  of_wildcard d scheme host port a w (inr (s, p, inl (x, below))) = (s, p, below)
  of_wildcard d scheme host port a w (inr (s, p, inr (x, same_host))) = ground (arith, w, x)

  of_host :
      (d : Destination) (scheme host port : Text)
      → d.any ≡ false
      → d.wildcard ≡ false
      → Grants d scheme host port
      → (d.scheme ≡ scheme) × (d.port ≡ port) × (d.host ≡ host)
  of_host d scheme host port a w (inl g) = ground (arith, a, g)
  of_host d scheme host port a w (inr (s, p, inl (x, below))) = ground (arith, w, x)
  of_host d scheme host port a w (inr (s, p, inr (x, same_host))) = (s, p, same_host)

  -- The destinations that an entry with this URL can be.
  abbrev wild : Url → Text → Destination
  wild u domain = record {
    scheme = u.scheme;
    host = codes "." ++ domain;
    port = (split_host_port net u.host u.scheme).1;
    wildcard = true;
    any = false;
  }

  abbrev plain : Url → Destination
  plain u = record {
    scheme = u.scheme;
    host = net.to_lower (split_host_port net u.host u.scheme).0;
    port = (split_host_port net u.host u.scheme).1;
    wildcard = false;
    any = false;
  }

  made_of : Url → Parsed Destination
  made_of u =
      let written = net.to_lower (split_host_port net u.host u.scheme).0 in
      elim (cut_prefix written wildcard_prefix) [
        | some domain ↦ parsed (wild u domain)
        | none ↦ if contains_any written then rejected misplaced_wildcard else parsed (plain u)
      ]

  -- What is made of the host, once the guards on the rest of the entry have passed.
  host_part-Allows :
      (entry : Text) (u : Url) (d : Destination) (scheme host port : Text)
      → net.parse_url (trim_space entry) ≡ some u
      → (u.scheme ≡ scheme_http) ⊎ (u.scheme ≡ scheme_https)
      → (u.path ≡ []) ⊎ (u.path ≡ codes "/")
      → made_of u ≡ parsed d
      → Grants d scheme host port
      → Allows entry scheme host port
  unfolding made_of
  host_part-Allows entry u d scheme host port k web root e g =
      let written = net.to_lower (split_host_port net u.host u.scheme).0 in
      elim (Option-cases (cut_prefix written wildcard_prefix)) [
        | inr (domain, c) ↦
            let made : parsed (wild u domain) ≡ parsed d = rw (made_of, c) at e in
            let granted = subst (λ t. Grants t scheme host port) (sym (parsed_inj made)) g in
            let (s, p, below) = of_wildcard (wild u domain) scheme host port refl refl granted in
            (
              u,
              k,
              web,
              root,
              s,
              p,
              inl (domain, cut_prefix-++ written wildcard_prefix domain c, below),
            )
        | inl c ↦ elim (Bool-cases (contains_any written)) [
          | inl m ↦
              let wrong : rejected misplaced_wildcard ≡ parsed d = rw (made_of, c, m) at e in
              absurd (ground arith)
          | inr m ↦
              let made : parsed (plain u) ≡ parsed d = rw (made_of, c, m) at e in
              let granted = subst (λ t. Grants t scheme host port) (sym (parsed_inj made)) g in
              let (s, p, same_host) = of_host (plain u) scheme host port refl refl granted in
              (u, k, web, root, s, p, inr (m, same_host))
        ]
      ]

  pub parse_destination-Allows :
      (entry : Text) (d : Destination) (scheme host port : Text)
      → parse_destination net (trim_space entry) ≡ parsed d
      → Grants d scheme host port
      → Allows entry scheme host port
  unfolding parse_destination made_of
  parse_destination-Allows entry d scheme host port e g =
      elim (Option-cases (net.parse_url (trim_space entry))) [
        | inl k ↦ absurd (ground (arith, e, k))
        | inr (u, k) ↦
            let written = net.to_lower (split_host_port net u.host u.scheme).0 in
            let read = rw (parse_destination, k) at e in
            elim (Bool-cases
              (not (same u.scheme scheme_http) && not (same u.scheme scheme_https))) [
                | inl x ↦ absurd (ground (arith, read, x))
                | inr x ↦ elim (Bool-cases (same u.host [])) [
                  | inl y ↦ absurd (ground (arith, read, x, y))
                  | inr y ↦
                      elim (Bool-cases (not (same u.path []) && not (same u.path (codes "/")))) [
                        | inl z ↦ absurd (ground (arith, read, x, y, z))
                        | inr z ↦
                            host_part-Allows entry u d scheme host port k
                              (ground (
                                arith,
                                x,
                                same→eq u.scheme scheme_http,
                                same→eq u.scheme scheme_https,
                              ))
                              (ground (arith, z, same→eq u.path [], same→eq u.path (codes "/")))
                              (rw (x, y, z, if◌then◌else◌) at read) g
                      ]
                ]
              ]
      ]
