-- ===== src/Actions/Exchange.antt =====
-- internal/actions/client.go: one exchange with a service, and one attempt with its session.
use unifi_reactor.Base.{
  ℕ, Bool, true, false, not, ◌&&◌, ◌||◌, List, [], ◌∷◌, Option, none, some, if◌then◌else◌, ◌==◌,
  leb, ltb,
}
use unifi_reactor.Base.Text.{Text, codes, same}
use unifi_reactor.Base.Int.{ℤ, pos}
use unifi_reactor.Base.Dict.{Dict, insert}
use unifi_reactor.Unifi.Levels.{leb_ℤ}
use unifi_reactor.Actions.Destination.{Url}

-- The fields of a `Request` that one leg sends. The timeout is in nanoseconds.
pub record Leg : Type 0 where
  pub method : Text
  pub url : Text
  pub header : Dict Text
  pub body : Text
  pub timeout : ℤ

-- `Request` and `Session`
mutual
  pub data Request : Type 0 where
    request : Leg → (retryable : Bool) → OptionalSession → Request

  pub data OptionalSession : Type 0 where
    no_session : OptionalSession
    session : (login : Request) (cookie : Text) (logout : Request) → OptionalSession

abbrev pub retry_attempts : ℕ
retry_attempts = 3

abbrev pub default_timeout : ℤ
default_timeout = pos 10_000_000_000

abbrev pub logout_timeout : ℤ
logout_timeout = pos 3_000_000_000

abbrev pub header_cookie : Text
header_cookie = codes "Cookie"

abbrev pub header_user_agent : Text
header_user_agent = codes "User-Agent"

abbrev pub user_agent : Text
user_agent = codes "unifi-reactor"

-- What goes out: the request of one `send`, with the deadline that its context carries.
pub record Sent : Type 0 where
  pub target : Url
  pub method : Text
  pub header : Dict Text
  pub body : Text
  pub timeout : ℤ

pub record Response : Type 0 where
  pub status_code : ℕ
  pub cookies : Dict Text

-- An error of the transport, as far as `sanitize` tells them apart.
pub data TransportError : Type 0 where
  deadline_exceeded canceled other_error : TransportError

pub data Cause : Type 0 where
  timed_out cancelled transport_failed unbuildable no_session_cookie : Cause
  responded : ℕ → Cause

-- An error of an attempt: a `transientError`, another error, or one with "logging in: " before it.
pub data Failure : Type 0 where
  transient_error : Cause → Failure
  plain_error : Cause → Failure
  logging_in : Failure → Failure

pub data Outcome (A : Type 0) : Type 0 where
  success : A → Outcome A
  failure : Failure → Outcome A

pub data Reply : Type 0 where
  replied : Response → Reply
  unanswered : TransportError → Reply

-- The transport and the time, which may depend on all that was sent before, the last of it first: what
-- a request is answered, and whether the caller's context ends while a retry waits. With them, whether
-- `http.NewRequestWithContext` takes a method, and the text of an `http.Cookie`.
pub record Transport : Type 0 where
  pub answer : List Sent → Sent → Reply
  pub context_ends : List Sent → Bool
  pub valid_method : Text → Bool
  pub cookie_text : Text → Text → Text

-- `sanitize`
unfoldable pub sanitize : TransportError → Failure
sanitize deadline_exceeded = transient_error timed_out
sanitize canceled = plain_error cancelled
sanitize other_error = transient_error transport_failed

-- `transient`
unfoldable pub transient : Failure → Bool
transient (transient_error c) = true
transient (plain_error c) = false
transient (logging_in e) = transient e

-- `classify`: the status, and the error if there is one.
unfoldable pub classify : Response → ℕ × Option Failure
classify r =
    let code = r.status_code in
    (
      code,
      if leb 200 code && ltb code 300
          then none
          else if code == 429 || leb 500 code
          then some (transient_error (responded code))
          else some (plain_error (responded code)),
    )

-- `timeoutOf`
unfoldable pub timeout_of : ℤ → ℤ
timeout_of timeout = if leb_ℤ timeout (pos 0) then default_timeout else timeout

-- The loop of `login` over the cookies of the response.
unfoldable pub find_cookie : Text → Dict Text → Option Text
find_cookie name [] = none
find_cookie name ((n, v) ∷ cookies) =
    let rest = find_cookie name cookies in if not (same n name) || same v [] then rest else some v

-- A leg with a `Cookie` header.
unfoldable pub with_cookie : Text → Leg → Leg
with_cookie cookie leg = record leg { header = insert header_cookie cookie leg.header }

module _ (x : Transport) where
  -- What `send` puts on the wire.
  abbrev pub sent_of : Url → Leg → ℤ → Sent
  sent_of target leg timeout = record {
    target = target;
    method = leg.method;
    header = insert header_user_agent user_agent leg.header;
    body = leg.body;
    timeout = timeout;
  }

  unfoldable pub read_reply : Reply → Outcome Response
  read_reply (replied r) = success r
  read_reply (unanswered e) = failure (sanitize e)

  -- `Client.send`, with all that is sent so far
  unfoldable pub send : Url → Leg → ℤ → List Sent → Outcome Response × List Sent
  unfolding read_reply
  send target leg timeout trace =
      let out = sent_of target leg timeout in
      if x.valid_method leg.method
      then (read_reply (x.answer trace out), out ∷ trace)
      else (failure (plain_error unbuildable), trace)

  unfoldable pub classify_outcome : Outcome Response → ℕ × Option Failure
  classify_outcome (success r) = classify r
  classify_outcome (failure e) = (0, some e)

  -- `Client.attempt`
  unfoldable pub attempt : Url → Leg → List Sent → (ℕ × Option Failure) × List Sent
  attempt target leg trace =
      let (outcome, after) = send target leg (timeout_of leg.timeout) trace in
      (classify_outcome outcome, after)

  unfoldable pub session_cookie : Text → Outcome Response → Outcome Text
  session_cookie name (failure e) = failure (logging_in e)
  session_cookie name (success r) = elim (classify r).1 [
    | some e ↦ failure (logging_in e)
    | none ↦ elim (find_cookie name r.cookies) [
      | none ↦ failure (plain_error no_session_cookie)
      | some value ↦ success (x.cookie_text name value)
    ]
  ]

  -- `Client.login`
  unfoldable pub login : Url → Leg → Text → List Sent → Outcome Text × List Sent
  login target leg name trace =
      let (outcome, after) = send target leg (timeout_of leg.timeout) trace in
      (session_cookie name outcome, after)

  -- `Client.logout`
  unfoldable pub logout : Option Url → Leg → Text → List Sent → List Sent
  logout none leg cookie trace = trace
  logout (some target) leg cookie trace =
      (send target (with_cookie cookie leg) logout_timeout trace).1

  -- `Client.runSession`, once the session is taken apart
  unfoldable pub run_session :
      Url
      → Leg
      → (login_target : Url) → (login_leg : Leg) → Text
      → (logout_target : Option Url) → (logout_leg : Leg) → List Sent
      → (ℕ × Option Failure) × List Sent
  run_session target leg login_target login_leg name logout_target logout_leg trace =
      let (entered, before) = login login_target login_leg name trace in
      elim entered [
        | failure e ↦ ((0, some e), before)
        | success cookie ↦
            let (done, after) = attempt target (with_cookie cookie leg) before in
            (done, logout logout_target logout_leg cookie after)
      ]
