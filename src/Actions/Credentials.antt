-- ===== src/Actions/Credentials.antt =====
-- internal/actions/credentials.go: what a Secret contributes to a request.
pub mod Usable
use unifi_reactor.Base.{
  ℕ, Bool, true, false, not, ◌&&◌, ◌||◌, List, [], ◌∷◌, ◌++◌, Option, none, some, if◌then◌else◌,
  ◌==◌, leb, map,
}
use unifi_reactor.Base.Text.{Text, codes, same, has_prefix}
use unifi_reactor.Base.Sort.{sort, text_order}
use unifi_reactor.Base.Dict.{Dict, get_or, insert, lookup}
use unifi_reactor.Unifi.Slug.{trim_space}
use unifi_reactor.Actions.Destination.{cut_prefix}

abbrev pub secret_key_url : Text
secret_key_url = codes "url"

abbrev pub secret_key_authorization : Text
secret_key_authorization = codes "authorization"

abbrev pub secret_key_header_prefix : Text
secret_key_header_prefix = codes "header-"

abbrev pub secret_key_username : Text
secret_key_username = codes "username"

abbrev pub secret_key_password : Text
secret_key_password = codes "password"

abbrev pub authorization : Text
authorization = codes "Authorization"

-- `Credentials`, with one value for each header
pub record Credentials : Type 0 where
  pub url : Text
  pub header : Dict Text
  pub username : Text
  pub password : Text

abbrev pub no_credentials : Credentials
no_credentials = record { url = []; header = []; username = []; password = [] }

-- The error names the key of the Secret.
pub data Read : Type 0 where
  credentials : Credentials → Read
  unusable_name empty_value line_break : Text → Read

-- `headerNameChars`
unfoldable pub is_header_rune : ℕ → Bool
is_header_rune r =
    (leb 97 r && leb r 122)
    || (leb 65 r && leb r 90)
    || (leb 48 r && leb r 57)
    || r == 33
    || (leb 35 r && leb r 39)
    || r == 42
    || r == 43
    || r == 45
    || r == 46
    || (leb 94 r && leb r 96)
    || r == 124
    || r == 126

unfoldable pub all_header_runes : Text → Bool
all_header_runes [] = true
all_header_runes (r ∷ s) = is_header_rune r && all_header_runes s

-- `name == "" || strings.ContainsFunc(...)`, turned around
unfoldable pub is_header_name : Text → Bool
is_header_name name = not (same name []) && all_header_runes name

-- `strings.ContainsAny(value, "\r\n\x00")`
unfoldable pub breaks_line : Text → Bool
breaks_line [] = false
breaks_line (r ∷ s) = (r == 13 || r == 10 || r == 0) || breaks_line s

module _ (canonical : Text → Text) where
  -- `credentials.Header.Set`, once `usableHeaderValue` lets the value pass.
  unfoldable pub set_header : (key name value : Text) → Credentials → Read
  set_header key name value c =
      if same value []
      then empty_value key
      else if breaks_line value
      then line_break key
      else credentials (record c { header = insert (canonical name) value c.header })

  unfoldable pub set_named : (key name value : Text) → Credentials → Read
  set_named key name value c =
      if is_header_name name then set_header key name value c else unusable_name key

  -- The switch of `CredentialsFrom`, on one key.
  unfoldable pub read_key : (key value : Text) → Credentials → Read
  read_key key value c =
      if same key secret_key_url
      then credentials (record c { url = value })
      else if same key secret_key_username
      then credentials (record c { username = value })
      else if same key secret_key_password
      then credentials (record c { password = value })
      else if same key secret_key_authorization
      then set_header key authorization value c
      else elim (cut_prefix key secret_key_header_prefix) [
        | none ↦ credentials c
        | some name ↦ set_named key name value c
      ]

  -- The loop of `CredentialsFrom` over the sorted keys.
  unfoldable pub read_keys : Dict Text → List Text → Credentials → Read
  read_keys secret [] c = credentials c
  read_keys secret (key ∷ keys) c =
      elim (read_key key (trim_space (get_or [] (lookup key secret))) c) [
        | credentials d ↦ read_keys secret keys d
        | unusable_name k ↦ unusable_name k
        | empty_value k ↦ empty_value k
        | line_break k ↦ line_break k
      ]

  -- `CredentialsFrom`
  unfoldable pub credentials_from : Dict Text → Read
  credentials_from secret =
      read_keys secret (sort (map (λ (entry : Text × Text). entry.0) secret)) no_credentials
