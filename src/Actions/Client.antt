-- ===== src/Actions/Client.antt =====
-- internal/actions/client.go: the attempts of one outbound request, and the check of its session.
pub mod Permitted
pub mod Bounded
pub mod Ended
use unifi_reactor.Base.{
  ℕ, zero, suc, Bool, true, false, not, ◌&&◌, ◌||◌, List, [], ◌∷◌, ◌++◌, Option, none, some,
  if◌then◌else◌, ◌==◌, ◌+◌, leb, ltb,
}
use unifi_reactor.Base.Text.{Text, codes, same}
use unifi_reactor.Base.Int.{ℤ, pos}
use unifi_reactor.Base.Dict.{Dict, insert}
use unifi_reactor.Unifi.Levels.{leb_ℤ}
use unifi_reactor.Actions.Destination.{
  CheckError, Checked, Net, Policy, Url, accepted, check, is_empty, refused,
}
use unifi_reactor.Actions.Exchange.{
  Cause, Failure, Leg, OptionalSession, Outcome, Reply, Request, Response, Sent, Transport,
  TransportError, attempt, canceled, cancelled, classify, classify_outcome, deadline_exceeded,
  default_timeout, failure, find_cookie, header_cookie, header_user_agent, logging_in, login,
  logout, logout_timeout, no_session, no_session_cookie, other_error, plain_error, read_reply,
  replied, request, responded, retry_attempts, run_session, sanitize, send, sent_of, session,
  session_cookie, success, timed_out, timeout_of, transient, transient_error, transport_failed,
  unanswered, unbuildable, user_agent, with_cookie,
}

module _ (x : Transport) where
  -- The loop of `repeat`, with the attempts that are left and those that were made: the status, the
  -- attempts and the error.
  unfoldable pub try_from :
      (List Sent → (ℕ × Option Failure) × List Sent)
      → (left tried : ℕ) → Option Failure
      → List Sent
      → (ℕ × ℕ × Option Failure) × List Sent
  try_from act zero tried last trace = ((0, tried, last), trace)
  try_from act (suc left) tried last trace =
      let (made, after) = act trace in
      let (status, error) = made in
      elim (ltb 0 tried && x.context_ends trace) [
        | true ↦ ((0, tried, last), trace)
        | false ↦ elim error [
          | none ↦ ((status, tried + 1, none), after)
          | some e ↦ elim (transient e) [
            | true ↦ try_from act left (tried + 1) (some e) after
            | false ↦ ((status, tried + 1, some e), after)
          ]
        ]
      ]

  -- `Client.repeat`
  unfoldable pub repeat :
      Bool
      → (List Sent → (ℕ × Option Failure) × List Sent)
      → List Sent
      → (ℕ × ℕ × Option Failure) × List Sent
  repeat retryable act trace = try_from act (if retryable then retry_attempts else 1) 0 none trace

pub data DoError : Type 0 where
  destination_refused : CheckError → DoError
  no_cookie_name nested_session : DoError
  attempt_failed : Failure → DoError

-- `sessionEndpoints`, or an error
pub data Endpoints : Type 0 where
  endpoints : (login : Url) → (logout : Option Url) → Endpoints
  no_endpoints : DoError → Endpoints

pub record Result : Type 0 where
  pub origin : Text
  pub status : ℕ
  pub attempts : ℕ

unfoldable pub leg_of : Request → Leg
leg_of (request leg retryable s) = leg

unfoldable pub has_session : Request → Bool
has_session (request leg retryable no_session) = false
has_session (request leg retryable (session l c o)) = true

module _ (net : Net) (p : Policy) where
  -- The logout of `checkSession`.
  unfoldable pub check_logout : Url → Text → Endpoints
  check_logout login_url raw =
      if same raw [] then endpoints login_url none else elim (check net p raw) [
        | refused e origin ↦ no_endpoints (destination_refused e)
        | accepted u origin ↦ endpoints login_url (some u)
      ]

  -- `Policy.checkSession`
  unfoldable pub check_session : Request → Text → Request → Endpoints
  check_session login cookie logout =
      if same cookie []
      then no_endpoints no_cookie_name
      else if has_session login
      then no_endpoints nested_session
      else elim (check net p (leg_of login).url) [
        | refused e origin ↦ no_endpoints (destination_refused e)
        | accepted u origin ↦ check_logout u (leg_of logout).url
      ]

  unfoldable pub report :
      Text → (ℕ × ℕ × Option Failure) × List Sent → (Result × Option DoError) × List Sent
  report origin ((status, attempts, error), trace) = (
    (
      record { origin = origin; status = status; attempts = attempts },
      elim error [ none ↦ none | some e ↦ some (attempt_failed e) ],
    ),
    trace,
  )

  -- A result without an attempt.
  unfoldable pub turn_down : Text → DoError → List Sent → (Result × Option DoError) × List Sent
  turn_down origin e trace = ((record { origin = origin; status = 0; attempts = 0 }, some e), trace)

  module _ (x : Transport) where
    -- `Client.Do`, once the URL is checked
    unfoldable pub do_checked :
        Url
        → Text
        → Leg
        → Bool
        → OptionalSession
        → List Sent
        → (Result × Option DoError) × List Sent
    do_checked target origin leg retryable no_session trace =
        report origin (repeat x retryable (attempt x target leg) trace)
    do_checked target origin leg retryable (session l name o) trace =
        elim (check_session l name o) [
          | no_endpoints e ↦ turn_down origin e trace
          | endpoints login_url logout_url ↦ report origin (
              repeat x retryable
                (run_session x target leg login_url (leg_of l) name logout_url (leg_of o)) trace)
        ]

    -- `Client.Do`
    unfoldable pub do_request : Request → List Sent → (Result × Option DoError) × List Sent
    do_request (request leg retryable s) trace = elim (check net p leg.url) [
      | refused e origin ↦ turn_down origin (destination_refused e) trace
      | accepted target origin ↦ do_checked target origin leg retryable s trace
    ]
