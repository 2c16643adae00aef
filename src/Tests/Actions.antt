-- ===== src/Tests/Actions.antt =====
-- Outbound requests at concrete inputs: one host that is listed, with a login and a logout.
use unifi_reactor.Base.{
  true, false, List, [], ◌∷◌, ◌++◌, none, some, if◌then◌else◌, ◌≡◌, inl, inr, refl, ◌+◌, ◌≤◌, ◌*◌,
}
use unifi_reactor.Base.Text.{leb_text, Text, codes, same}
use unifi_reactor.Base.Int.{pos}
use unifi_reactor.Base.Dict.{Dict, lookup, insert}
use unifi_reactor.Unifi.Slug.{trim_space}
use unifi_reactor.Unifi.Levels.{leb_ℤ}
use unifi_reactor.Base.Sort.{sort_by}
use unifi_reactor.Actions.Credentials.{
  breaks_line, credentials, credentials_from, read_key, read_keys, set_header,
}
use unifi_reactor.Actions.Credentials.Usable.{AreUsable, credentials_from-AreUsable}
use unifi_reactor.Actions.Destination.{
  Address, Destination, Net, Policy, Url, accepted, any_matches, check, check_url, contains_any,
  control_address, cut_prefix, default_port, is_empty, matches, origin_text, parse_destination,
  parse_entries, parse_policy, parsed, split_host_port, trim_brackets,
}
use unifi_reactor.Actions.Destination.Granted.{IsPermitted}
use unifi_reactor.Actions.Destination.Listed.{AnyListed, lists_any, parse_policy-check}
use unifi_reactor.Actions.Destination.Dialled.{IsOrdinary, control_address-IsOrdinary}
use unifi_reactor.Actions.Exchange.{
  classify, classify_outcome, find_cookie, logout, read_reply, send, session_cookie, timeout_of,
  transient, Leg, Request, Sent, Transport, attempt, header_cookie, login, logout_timeout,
  no_session, replied, request, run_session, session, with_cookie,
}
use unifi_reactor.Actions.Client.{
  check_logout, check_session, do_checked, has_session, leg_of, repeat, report, try_from,
  do_request,
}
use unifi_reactor.Actions.Client.Permitted.{AllPermitted, do_request-AllPermitted}
use unifi_reactor.Actions.Client.Bounded.{count_sent, do_request-IsLimited}
use unifi_reactor.Actions.Client.Ended.{run_session-logout}

abbrev hook_url : Url
hook_url = record {
  scheme = codes "https";
  has_user = false;
  host = codes "hooks.lan";
  path = [];
  raw_query = [];
  fragment = [];
}

abbrev lan_address : Address
lan_address = record {
  is_loopback = false;
  is_link_local_unicast = false;
  is_link_local_multicast = false;
  is_unspecified = false;
  is_multicast = false;
  is_interface_local_multicast = false;
}

-- Every text is parsed as the one URL, and its host names no port.
abbrev one_host : Net
one_host = record {
  parse_url = λ raw. some hook_url;
  split_host_port = λ t. if same t (codes "h:1") then some (codes "h", codes "1") else none;
  parse_addr = λ t. some lan_address;
  unmap = λ a. a;
  to_lower = λ t. t;
  join_path = λ u segments. u.path;
}

abbrev entries : List Text
entries = codes "https://hooks.lan" ∷ []

abbrev hook_destination : Destination
hook_destination = record {
  scheme = codes "https";
  host = codes "hooks.lan";
  port = codes "443";
  wildcard = false;
  any = false;
}

abbrev hook_policy : Policy
hook_policy = record { allowed = hook_destination ∷ []; allow_loopback = false }

abbrev hook_origin : Text
hook_origin = codes "https://hooks.lan:443"

hook_policy_run : parse_policy one_host entries ≡ parsed hook_policy
unfolding parse_policy parse_entries parse_destination trim_space same split_host_port trim_brackets
    default_port cut_prefix contains_any
hook_policy_run = refl

hook_check_run :
    check one_host hook_policy (codes "https://hooks.lan/x") ≡ accepted hook_url hook_origin
unfolding check check_url split_host_port trim_brackets default_port same is_empty any_matches
    matches origin_text
hook_check_run = refl

hook_url-IsPermitted : IsPermitted one_host hook_policy hook_url
unfolding split_host_port trim_brackets default_port same
hook_url-IsPermitted = (inr refl, refl, refl, refl, inl (inr (refl, refl, inr (refl, refl))))

parse_policy-check_example :
    AnyListed one_host entries
      (codes "https")
      (split_host_port one_host (codes "hooks.lan") (codes "https")).0
      (split_host_port one_host (codes "hooks.lan") (codes "https")).1
unfolding lists_any trim_space same
parse_policy-check_example =
    parse_policy-check one_host entries hook_policy (codes "https://hooks.lan/x") hook_url
      hook_origin refl hook_policy_run hook_check_run

control_address-IsOrdinary_example :
    (hp : Text × Text) × (a : Address) × (some (codes "h", codes "1") ≡ some hp)
    × (some lan_address ≡ some a)
    × IsOrdinary a
unfolding control_address same
control_address-IsOrdinary_example =
    control_address-IsOrdinary one_host entries hook_policy (codes "h:1") hook_policy_run refl

-- The login is answered with a cookie, and everything else with the status 503.
abbrev busy_service : Transport
busy_service = record {
  answer = λ trace s. replied (
      if same s.method (codes "LOGIN")
      then record { status_code = 200; cookies = (codes "SID", codes "1") ∷ [] }
      else record { status_code = 503; cookies = [] });
  context_ends = λ trace. false;
  valid_method = λ m. true;
  cookie_text = λ name value. name ++ codes "=" ++ value;
}

abbrev leg_with : Text → Leg
leg_with m = record {
  method = m;
  url = codes "https://hooks.lan/x";
  header = [];
  body = [];
  timeout = pos 0;
}

abbrev bare : Text → Request
bare m = request (leg_with m) false no_session

abbrev pausing : Request
pausing =
    request (leg_with (codes "POST")) true
      (session (bare (codes "LOGIN")) (codes "SID") (bare (codes "LOGOUT")))

do_request-AllPermitted_example :
    AllPermitted one_host hook_policy (do_request one_host hook_policy busy_service pausing []).1
do_request-AllPermitted_example =
    do_request-AllPermitted one_host hook_policy busy_service pausing [] tt

-- Three attempts of three requests each.
busy_service_run : count_sent (do_request one_host hook_policy busy_service pausing []).1 ≡ 9
unfolding count_sent do_request check check_url split_host_port trim_brackets default_port same
    is_empty any_matches matches do_checked check_session has_session leg_of check_logout report
    repeat try_from run_session login send read_reply session_cookie classify find_cookie attempt
    classify_outcome logout with_cookie insert transient timeout_of leb_ℤ
busy_service_run = refl

do_request-IsLimited_example :
    ((do_request one_host hook_policy busy_service pausing []).0.0.attempts ≤ 3)
    × (count_sent (do_request one_host hook_policy busy_service pausing []).1
        ≤ 0 + 3 * (do_request one_host hook_policy busy_service pausing []).0.0.attempts)
unfolding count_sent
do_request-IsLimited_example = do_request-IsLimited one_host hook_policy busy_service pausing []

run_session-logout_example :
    (last : Sent) × (before : List Sent) × ((run_session busy_service hook_url
        (leg_with (codes "POST"))
        hook_url
        (leg_with (codes "LOGIN"))
        (codes "SID")
        (some hook_url)
        (leg_with (codes "LOGOUT"))
        []).1
      ≡ last ∷ before)
    × (last.target ≡ hook_url)
    × (last.timeout ≡ logout_timeout)
    × (lookup header_cookie last.header ≡ some (codes "SID=1"))
    × ((attempt busy_service hook_url
          (with_cookie (codes "SID=1") (leg_with (codes "POST")))
          (login busy_service hook_url (leg_with (codes "LOGIN")) (codes "SID") []).1)
        ≡ (
          (run_session busy_service hook_url
              (leg_with (codes "POST"))
              hook_url
              (leg_with (codes "LOGIN"))
              (codes "SID")
              (some hook_url)
              (leg_with (codes "LOGOUT"))
              []).0,
          before,
        ))
unfolding login send read_reply session_cookie classify find_cookie same timeout_of leb_ℤ
run_session-logout_example =
    run_session-logout busy_service hook_url (leg_with (codes "POST")) hook_url
      (leg_with (codes "LOGIN")) (codes "SID") hook_url (leg_with (codes "LOGOUT")) []
      (codes "SID=1") refl refl

abbrev token_secret : Dict Text
token_secret =
    (codes "url", codes " https://hooks.lan ") ∷ (codes "authorization", codes "Bearer x") ∷ []

token_secret_run :
    credentials_from (λ n. n) token_secret
    ≡ credentials (record {
      url = codes "https://hooks.lan";
      header = (codes "Authorization", codes "Bearer x") ∷ [];
      username = [];
      password = [];
    })
unfolding credentials_from read_keys read_key set_header breaks_line insert same lookup trim_space
    leb_text sort_by
token_secret_run = refl

credentials_from-AreUsable_example :
    AreUsable (λ n. n) ((codes "Authorization", codes "Bearer x") ∷ [])
credentials_from-AreUsable_example =
    credentials_from-AreUsable (λ n. n) token_secret
      (record {
        url = codes "https://hooks.lan";
        header = (codes "Authorization", codes "Bearer x") ∷ [];
        username = [];
        password = [];
      })
      token_secret_run
