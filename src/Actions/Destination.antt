-- ===== src/Actions/Destination.antt =====
-- internal/actions/destination.go: where the operator lets a request go.
pub mod Granted
pub mod Entry
pub mod Listed
pub mod Dialled
use unifi_reactor.Base.{
  ℕ, Bool, true, false, not, ◌&&◌, ◌||◌, List, [], ◌∷◌, ◌++◌, Option, none, some, if◌then◌else◌,
  ◌==◌,
}
use unifi_reactor.Base.Text.{Text, codes, same, has_prefix}
use unifi_reactor.Base.Dict.{get_or}
use unifi_reactor.Unifi.Slug.{trim_space}

-- What is read of a `url.URL`.
pub record Url : Type 0 where
  pub scheme : Text
  pub has_user : Bool
  pub host : Text
  pub path : Text
  pub raw_query : Text
  pub fragment : Text

-- What is asked of a `netip.Addr`.
pub record Address : Type 0 where
  pub is_loopback : Bool
  pub is_link_local_unicast : Bool
  pub is_link_local_multicast : Bool
  pub is_unspecified : Bool
  pub is_multicast : Bool
  pub is_interface_local_multicast : Bool

-- `url.Parse`, `net.SplitHostPort`, `netip.ParseAddr`, `Addr.Unmap`, `strings.ToLower`, and the text of
-- `url.JoinPath`; `none` is an error.
pub record Net : Type 0 where
  pub parse_url : Text → Option Url
  pub split_host_port : Text → Option (Text × Text)
  pub parse_addr : Text → Option Address
  pub unmap : Address → Address
  pub to_lower : Text → Text
  pub join_path : Url → List Text → Text

abbrev pub scheme_http : Text
scheme_http = codes "http"

abbrev pub scheme_https : Text
scheme_https = codes "https"

abbrev pub allow_any : Text
allow_any = codes "*"

abbrev pub wildcard_prefix : Text
wildcard_prefix = codes "*."

-- `destination`
pub record Destination : Type 0 where
  pub scheme : Text
  pub host : Text
  pub port : Text
  pub wildcard : Bool
  pub any : Bool

pub record Policy : Type 0 where
  pub allowed : List Destination
  pub allow_loopback : Bool

pub data PolicyError : Type 0 where
  not_a_url needs_scheme names_no_host has_path misplaced_wildcard : PolicyError

pub data Parsed {ℓ} (A : Type ℓ) : Type ℓ where
  parsed : A → Parsed A
  rejected : PolicyError → Parsed A

-- `destination{any: true}`
abbrev pub every_host : Destination
every_host = record { scheme = []; host = []; port = []; wildcard = false; any = true }

-- `strings.HasSuffix`
unfoldable pub has_suffix : Text → Text → Bool
has_suffix [] s = same [] s
has_suffix (r ∷ t) s = same (r ∷ t) s || has_suffix t s

-- `len(a) > len(b)`, on texts of which one is a suffix of the other.
unfoldable pub is_longer : Text → Text → Bool
is_longer [] b = false
is_longer (r ∷ a) [] = true
is_longer (r ∷ a) (s ∷ b) = is_longer a b

-- `strings.CutPrefix`
unfoldable pub cut_prefix : Text → Text → Option Text
cut_prefix s [] = some s
cut_prefix [] (r ∷ p) = none
cut_prefix (r ∷ s) (q ∷ p) = let rest = cut_prefix s p in if r == q then rest else none

-- `strings.Contains(s, "*")`
unfoldable pub contains_any : Text → Bool
contains_any [] = false
contains_any (r ∷ s) = r == 42 || contains_any s

is_bracket : ℕ → Bool
is_bracket r = r == 91 || r == 93

trim_brackets_left : Text → Text
unfolding is_bracket
trim_brackets_left [] = []
trim_brackets_left (r ∷ s) = let rest = trim_brackets_left s in if is_bracket r then rest else r ∷ s

all_brackets : Text → Bool
unfolding is_bracket
all_brackets [] = true
all_brackets (r ∷ s) = is_bracket r && all_brackets s

trim_brackets_right : Text → Text
unfolding all_brackets
trim_brackets_right [] = []
trim_brackets_right (r ∷ s) =
    let rest = trim_brackets_right s in if all_brackets (r ∷ s) then [] else r ∷ rest

-- `strings.Trim(host, "[]")`
unfoldable pub trim_brackets : Text → Text
unfolding trim_brackets_left trim_brackets_right
trim_brackets s = trim_brackets_right (trim_brackets_left s)

-- `defaultPort`
unfoldable pub default_port : Text → Text
default_port scheme = if same scheme scheme_https then codes "443" else codes "80"

-- `destination.matches`
unfoldable pub matches : Destination → Text → Text → Text → Bool
matches d scheme host port =
    if d.any
    then true
    else if not (same d.scheme scheme) || not (same d.port port)
    then false
    else if d.wildcard
    then has_suffix host d.host && is_longer host d.host
    else same d.host host

unfoldable pub any_matches : List Destination → Text → Text → Text → Bool
any_matches [] scheme host port = false
any_matches (d ∷ allowed) scheme host port =
    matches d scheme host port || any_matches allowed scheme host port

-- `Policy.Empty`
unfoldable pub is_empty : Policy → Bool
is_empty p = elim p.allowed [ [] ↦ true | d ∷ allowed ↦ false ]

pub data CheckError : Type 0 where
  invalid_url unsupported_scheme has_user_info no_host outbound_disabled not_allowed : CheckError

-- What `Policy.Check` returns: the URL, or an error, with the origin as far as it is known.
pub data Checked : Type 0 where
  accepted : Url → Text → Checked
  refused : CheckError → Text → Checked

unfoldable pub origin_text : Text → Text → Text → Text
origin_text scheme host port = scheme ++ (codes "://") ++ host ++ (codes ":") ++ port

pub data DialError : Type 0 where
  unparsable_address not_an_ip_address loopback link_local unspecified multicast : DialError

module _ (net : Net) where
  -- `splitHostPort`
  unfoldable pub split_host_port : Text → Text → Text × Text
  unfolding default_port
  split_host_port host_port scheme =
      let (host, port) = get_or (host_port, default_port scheme) (net.split_host_port host_port) in
      (trim_brackets host, if same port [] then default_port scheme else port)

  -- `parseDestination`
  unfoldable pub parse_destination : Text → Parsed Destination
  parse_destination entry = elim (net.parse_url entry) [
    | none ↦ rejected not_a_url
    | some u ↦
        let (host_part, port) = split_host_port u.host u.scheme in
        let host = net.to_lower host_part in
        if not (same u.scheme scheme_http) && not (same u.scheme scheme_https)
        then rejected needs_scheme
        else if same u.host []
        then rejected names_no_host
        else if not (same u.path []) && not (same u.path (codes "/"))
        then rejected has_path
        else elim (cut_prefix host wildcard_prefix) [
          | some suffix ↦ parsed (record {
            scheme = u.scheme;
            host = codes "." ++ suffix;
            port = port;
            wildcard = true;
            any = false;
          })
          | none ↦
              if contains_any host
              then rejected misplaced_wildcard
              else parsed (record {
                scheme = u.scheme;
                host = host;
                port = port;
                wildcard = false;
                any = false;
              })
        ]
  ]

  -- `ParsePolicy`, from the entries that are read so far, in order.
  unfoldable pub parse_entries : List Text → List Destination → Parsed (List Destination)
  parse_entries [] allowed = parsed allowed
  parse_entries (entry ∷ entries) allowed =
      let word = trim_space entry in
      let skipped = parse_entries entries allowed in
      let opened = parse_entries entries (allowed ++ (every_host ∷ [])) in
      let added : Parsed (List Destination) = elim (parse_destination word) [
        | rejected e ↦ rejected e
        | parsed d ↦ parse_entries entries (allowed ++ (d ∷ []))
      ] in
      if same word [] then skipped else if same word allow_any then opened else added

  unfoldable pub parse_policy : List Text → Parsed Policy
  parse_policy entries = elim (parse_entries entries []) [
    | rejected e ↦ rejected e
    | parsed allowed ↦ parsed (record { allowed = allowed; allow_loopback = false })
  ]

  -- `Policy.Check`, once the URL is parsed
  unfoldable pub check_url : Policy → Url → Checked
  check_url p u =
      let scheme = net.to_lower u.scheme in
      let (host, port) = split_host_port u.host scheme in
      let origin = origin_text scheme host port in
      if not (same scheme scheme_http) && not (same scheme scheme_https)
      then refused unsupported_scheme []
      else if u.has_user
      then refused has_user_info []
      else if same u.host [] || same host []
      then refused no_host []
      else if is_empty p
      then refused outbound_disabled origin
      else if any_matches p.allowed scheme host port
      then accepted u origin
      else refused not_allowed origin

  -- `Policy.Check`
  unfoldable pub check : Policy → Text → Checked
  check p raw = elim (net.parse_url raw) [ none ↦ refused invalid_url [] | some u ↦ check_url p u ]

  -- `Policy.controlAddress`, where `none` lets the address be dialled.
  unfoldable pub control_address : Policy → Text → Option DialError
  control_address p address = elim (net.split_host_port address) [
    | none ↦ some unparsable_address
    | some (host, port) ↦ elim (net.parse_addr host) [
      | none ↦ some not_an_ip_address
      | some parsed_addr ↦
          let addr = net.unmap parsed_addr in
          if addr.is_loopback
          then (if p.allow_loopback then none else some loopback)
          else if addr.is_link_local_unicast || addr.is_link_local_multicast
          then some link_local
          else if addr.is_unspecified
          then some unspecified
          else if addr.is_multicast || addr.is_interface_local_multicast
          then some multicast
          else none
    ]
  ]

  pub data EndpointError : Type 0 where
    invalid_base base_with_query : EndpointError

  pub data Endpoint : Type 0 where
    endpoint : Text → Endpoint
    no_endpoint : EndpointError → Endpoint

  -- `endpointOn`
  unfoldable pub endpoint_on : Text → List Text → Endpoint
  endpoint_on base segments = elim (net.parse_url base) [
    | none ↦ no_endpoint invalid_base
    | some u ↦
        if not (same u.raw_query []) || not (same u.fragment [])
        then no_endpoint base_with_query
        else endpoint (net.join_path u segments)
  ]
