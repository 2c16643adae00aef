-- ===== src/Actions/Destination/Listed.antt =====
-- What the entries of the allowlist, as they are written, let through.
use unifi_reactor.Base.{
  Bool, false, ◌||◌, List, [], ◌∷◌, ◌++◌, if◌then◌else◌, ◌≡◌, ◌⊎◌, inl, inr, refl, sym, ap, ◌∙◌,
  subst, arith, Bool-cases,
}
use unifi_reactor.Base.Text.{Text, same}
use unifi_reactor.Unifi.Slug.{trim_space}
use unifi_reactor.Actions.Destination.{
  Destination, Net, Parsed, Policy, PolicyError, Url, accepted, allow_any, check, parse_destination,
  parse_entries, parse_policy, parsed, rejected, split_host_port,
}
use unifi_reactor.Actions.Destination.Entry.{Allows, parse_destination-Allows}
use unifi_reactor.Actions.Destination.Granted.{AnyGrants, check-IsPermitted}

-- The list has the entry `*`.
unfoldable pub lists_any : List Text → Bool
lists_any [] = false
lists_any (entry ∷ entries) = same (trim_space entry) allow_any || lists_any entries

pub Parsed-cases {ℓ} :
    {A : Type ℓ} (r : Parsed A)
    → ((d : A) × (r ≡ parsed d)) ⊎ ((x : PolicyError) × (r ≡ rejected x))
Parsed-cases (parsed d) = inl (d, refl)
Parsed-cases (rejected x) = inr (x, refl)

module _ (net : Net) where
  -- Some entry allows it.
  abbrev pub AnyListed : List Text → Text → Text → Text → Type 0
  AnyListed [] scheme host port = ⊥
  AnyListed (entry ∷ entries) scheme host port =
      Allows net entry scheme host port ⊎ AnyListed entries scheme host port

  AnyGrants-++ :
      (ds es : List Destination) (scheme host port : Text)
      → AnyGrants (ds ++ es) scheme host port
      → AnyGrants ds scheme host port ⊎ AnyGrants es scheme host port
  AnyGrants-++ [] es scheme host port g = inr g
  AnyGrants-++ (d ∷ ds) es scheme host port (inl g) = inl (inl g)
  AnyGrants-++ (d ∷ ds) es scheme host port (inr g) = elim (AnyGrants-++ ds es scheme host port g) [
    | inl h ↦ inl (inr h)
    | inr h ↦ inr h
  ]

  -- A destination that is added is granted by its own entry.
  from_added :
      (entry : Text) (d : Destination) (acc : List Destination) (entries : List Text)
      (scheme host port : Text)
      → parse_destination net (trim_space entry) ≡ parsed d
      → AnyGrants (acc ++ (d ∷ [])) scheme host port ⊎ AnyListed entries scheme host port
      → AnyGrants acc scheme host port ⊎ AnyListed (entry ∷ entries) scheme host port
  from_added entry d acc entries scheme host port w (inr h) = inr (inr h)
  from_added entry d acc entries scheme host port w (inl h) =
      elim (AnyGrants-++ acc (d ∷ []) scheme host port h) [
        | inl k ↦ inl k
        | inr (inl k) ↦ inr (inl (parse_destination-Allows net entry d scheme host port w k))
        | inr (inr k) ↦ absurd k
      ]

  listed-parse_entries :
      (entries : List Text) (acc allowed : List Destination) (scheme host port : Text)
      → lists_any entries ≡ false
      → parse_entries net entries acc ≡ parsed allowed
      → AnyGrants allowed scheme host port
      → AnyGrants acc scheme host port ⊎ AnyListed entries scheme host port
  unfolding parse_entries lists_any
  listed-parse_entries [] acc allowed scheme host port o e g =
      let same_list : acc ≡ allowed = ground arith in
      inl (subst (λ (ds : List Destination). AnyGrants ds scheme host port) (sym same_list) g)
  listed-parse_entries (entry ∷ entries) acc allowed scheme host port o e g =
      elim (Bool-cases (same (trim_space entry) [])) [
        | inl k ↦
            let rest : parse_entries net entries acc ≡ parsed allowed = ground arith in
            let found =
              listed-parse_entries entries acc allowed scheme host port (ground arith) rest g in
            elim found [ inl h ↦ inl h | inr h ↦ inr (inr h) ]
        | inr k ↦
            let word : same (trim_space entry) allow_any ≡ false = ground arith in
            elim (Parsed-cases (parse_destination net (trim_space entry))) [
              | inr (x, w) ↦
                  let wrong : rejected x ≡ parsed allowed =
                    rw (parse_entries, k, word, w, if◌then◌else◌) at e in
                  absurd (ground arith)
              | inl (d, w) ↦
                  let rest : parse_entries net entries (acc ++ (d ∷ [])) ≡ parsed allowed =
                    rw (parse_entries, k, word, w, if◌then◌else◌) at e in
                  let found =
                    listed-parse_entries entries (acc ++ (d ∷ [])) allowed scheme host port
                      (ground arith) rest g in
                  from_added entry d acc entries scheme host port w found
            ]
      ]

  -- Where no entry of the list is `*`, every request that the parsed policy lets through is one that an
  -- entry allows as it is written: the entry is an http or https URL without a path, with the scheme
  -- and the port of the request's URL, and with its host or, written `*.domain`, with a host that puts
  -- at least one more character before `.domain`.
  pub parse_policy-check :
      (entries : List Text) (p : Policy) (raw : Text) (u : Url) (origin : Text)
      → lists_any entries ≡ false
      → parse_policy net entries ≡ parsed p
      → check net p raw ≡ accepted u origin
      → AnyListed entries
          (net.to_lower u.scheme)
          (split_host_port net u.host (net.to_lower u.scheme)).0
          (split_host_port net u.host (net.to_lower u.scheme)).1
  unfolding parse_policy
  parse_policy-check entries p raw u origin o e c =
      elim (Parsed-cases (parse_entries net entries [])) [
        | inr (x, w) ↦
            let wrong : rejected x ≡ parsed p = rw (parse_policy, w) at e in absurd (ground arith)
        | inl (allowed, w) ↦
            let made : parsed (record { allowed = allowed; allow_loopback = false }) ≡ parsed p =
              rw (parse_policy, w) at e in
            let list : allowed ≡ p.allowed = ground arith in
            let granted = (check-IsPermitted net p raw u origin c).1.4 in
            let found =
              listed-parse_entries entries [] p.allowed _ _ _ o
                (w ∙ ap (λ (ds : List Destination). parsed ds) list) granted in
            elim found [ inl h ↦ absurd h | inr h ↦ h ]
      ]
