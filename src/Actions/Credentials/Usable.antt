-- ===== src/Actions/Credentials/Usable.antt =====
-- The headers that a Secret contributes.
use unifi_reactor.Base.{
  Bool, true, false, List, [], ◌∷◌, Option, none, some, if◌then◌else◌, ◌≡◌, inl, inr, refl, subst,
  Bool-cases,
}
use unifi_reactor.Base.Text.{Text, same, same→eq}
use unifi_reactor.Base.Sort.{text_order}
use unifi_reactor.Base.Dict.{Dict, get_or, insert, lookup}
use unifi_reactor.Unifi.Slug.{trim_space}
use unifi_reactor.Actions.Destination.{cut_prefix}
use unifi_reactor.Actions.Credentials.{
  Credentials, Read, all_header_runes, authorization, breaks_line, credentials, credentials_from,
  empty_value, is_header_name, is_header_rune, line_break, no_credentials, read_key, read_keys,
  secret_key_authorization, secret_key_header_prefix, secret_key_password, secret_key_url,
  secret_key_username, set_header, set_named, unusable_name,
}

-- Every header has a name of header characters, once it is canonical, and a value that is not empty and
-- breaks no line.
abbrev pub AreUsable : (Text → Text) → Dict Text → Type 0
AreUsable canonical [] = Unit
AreUsable canonical ((name, value) ∷ header) =
    ((n : Text) × (is_header_name n ≡ true) × (name ≡ canonical n))
    × (same value [] ≡ false)
    × (breaks_line value ≡ false)
    × AreUsable canonical header

-- What is read is usable so far.
abbrev IsUsable : (Text → Text) → Read → Type 0
IsUsable canonical (credentials c) = AreUsable canonical c.header
IsUsable canonical (unusable_name k) = Unit
IsUsable canonical (empty_value k) = Unit
IsUsable canonical (line_break k) = Unit

module _ (canonical : Text → Text) where
  insert-AreUsable :
      (n value : Text) (header : Dict Text)
      → is_header_name n ≡ true
      → same value [] ≡ false
      → breaks_line value ≡ false
      → AreUsable canonical header
      → AreUsable canonical (insert (canonical n) value header)
  unfolding insert
  insert-AreUsable n value [] a b c h = ((n, a, refl), b, c, tt)
  insert-AreUsable n value ((m, w) ∷ header) a b c h = elim (Bool-cases (same m (canonical n))) [
    | inl e ↦ rw (e, if◌then◌else◌) ((n, a, same→eq m (canonical n) e), b, c, h.3)
    | inr e ↦ rw (e, if◌then◌else◌) (h.0, h.1, h.2, insert-AreUsable n value header a b c h.3)
  ]

  set_header-IsUsable :
      (key name value : Text) (c : Credentials)
      → is_header_name name ≡ true
      → AreUsable canonical c.header
      → IsUsable canonical (set_header canonical key name value c)
  unfolding set_header
  set_header-IsUsable key name value c a h = elim (Bool-cases (same value [])) [
    | inl e ↦ rw (set_header, e, if◌then◌else◌) tt
    | inr e ↦ elim (Bool-cases (breaks_line value)) [
      | inl k ↦ rw (set_header, e, k, if◌then◌else◌) tt
      | inr k ↦ rw (set_header, e, k, if◌then◌else◌) (insert-AreUsable name value c.header a e k h)
    ]
  ]

  set_named-IsUsable :
      (key name value : Text) (c : Credentials)
      → AreUsable canonical c.header
      → IsUsable canonical (set_named canonical key name value c)
  unfolding set_named
  set_named-IsUsable key name value c h = elim (Bool-cases (is_header_name name)) [
    | inl e ↦ rw (set_named, e, if◌then◌else◌) (set_header-IsUsable key name value c e h)
    | inr e ↦ rw (set_named, e, if◌then◌else◌) tt
  ]

  -- A choice between two readings.
  choice-IsUsable :
      (b : Bool) (r s : Read)
      → IsUsable canonical r
      → IsUsable canonical s
      → IsUsable canonical (if b then r else s)
  choice-IsUsable true r s h k = h
  choice-IsUsable false r s h k = k

  named-IsUsable :
      (key value : Text) (c : Credentials) (o : Option Text)
      → AreUsable canonical c.header
      → IsUsable canonical (elim o as (λ x. Read) [
        | none ↦ credentials c
        | some name ↦ set_named canonical key name value c
      ])
  named-IsUsable key value c none h = h
  named-IsUsable key value c (some name) h = set_named-IsUsable key name value c h

  read_key-IsUsable :
      (key value : Text) (c : Credentials)
      → AreUsable canonical c.header
      → IsUsable canonical (read_key canonical key value c)
  unfolding read_key is_header_name all_header_runes is_header_rune same
  read_key-IsUsable key value c h = choice-IsUsable (same key secret_key_url) _ _ h (
      choice-IsUsable (same key secret_key_username) _ _ h (
        choice-IsUsable (same key secret_key_password) _ _ h (
          choice-IsUsable (same key secret_key_authorization) _ _
            (set_header-IsUsable key authorization value c refl h)
            (named-IsUsable key value c (cut_prefix key secret_key_header_prefix) h))))

  read_keys-IsUsable :
      (secret : Dict Text) (keys : List Text) (c : Credentials)
      → AreUsable canonical c.header
      → IsUsable canonical (read_keys canonical secret keys c)
  unfolding read_keys
  read_keys-IsUsable secret [] c h = h
  read_keys-IsUsable secret (key ∷ keys) c h =
      let value = trim_space (get_or [] (lookup key secret)) in
      next (read_key canonical key value c) (λ d k. read_keys-IsUsable secret keys d k)
        (read_key-IsUsable key value c h)
    where
      next :
          (r : Read)
          → ((d : Credentials)
              → AreUsable canonical d.header
              → IsUsable canonical (read_keys canonical secret keys d))
          → IsUsable canonical r
          → IsUsable canonical (elim r as (λ x. Read) [
            | credentials d ↦ read_keys canonical secret keys d
            | unusable_name k ↦ unusable_name k
            | empty_value k ↦ empty_value k
            | line_break k ↦ line_break k
          ])
      next (credentials d) go k = go d k
      next (unusable_name k) go u = tt
      next (empty_value k) go u = tt
      next (line_break k) go u = tt

  -- Whatever a Secret holds, each header of the credentials that are read from it has a name of the
  -- characters that a header name may have, in its canonical form, and a value that is not empty and has
  -- no line break and no zero.
  pub credentials_from-AreUsable :
      (secret : Dict Text) (c : Credentials)
      → credentials_from canonical secret ≡ credentials c
      → AreUsable canonical c.header
  unfolding credentials_from
  credentials_from-AreUsable secret c e =
      subst (IsUsable canonical) e (read_keys-IsUsable secret _ no_credentials tt)
