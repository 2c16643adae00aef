-- ===== src/Actions/Client/Bounded.antt =====
-- How often a request goes out.
use unifi_reactor.Base.{
  ℕ, zero, suc, Bool, ◌&&◌, List, [], ◌∷◌, Option, none, some, if◌then◌else◌, ◌≡◌, inl, inr, arith,
  Bool-cases, Option-cases, ◌+◌, ◌*◌, ◌≤◌, ltb,
}
use unifi_reactor.Base.Text.{Text}
use unifi_reactor.Base.Int.{ℤ}
use unifi_reactor.Actions.Destination.{Net, Policy, Url, check}
use unifi_reactor.Actions.Exchange.{
  Failure, Leg, OptionalSession, Request, Sent, Transport, attempt, login, logout, logout_timeout,
  no_session, request, retry_attempts, run_session, send, session, session_cookie, timeout_of,
  transient, with_cookie,
}
use unifi_reactor.Actions.Client.{
  DoError, Result, check_session, do_checked, do_request, leg_of, repeat, report, try_from,
  turn_down,
}
use unifi_reactor.Actions.Client.Permitted.{Checked-cases, Endpoints-cases, Outcome-cases}

-- How many requests are on the wire.
unfoldable pub count_sent : List Sent → ℕ
count_sent [] = 0
count_sent (s ∷ trace) = count_sent trace + 1

-- How many attempts a request may have.
abbrev pub attempt_limit : Bool → ℕ
attempt_limit retryable = if retryable then retry_attempts else 1

abbrev pub is_retryable : Request → Bool
is_retryable (request leg retryable s) = retryable

-- How many requests one attempt sends at most: three with a session.
abbrev pub legs_per_attempt : OptionalSession → ℕ
legs_per_attempt no_session = 1
legs_per_attempt (session l name o) = 3

abbrev pub session_of : Request → OptionalSession
session_of (request leg retryable s) = s

-- One round more.
round_more : (n t : ℕ) → n * (t + 1) ≡ n * t + n
round_more n t = grind arith

module _ (x : Transport) where
  send-count_sent :
      (target : Url) (leg : Leg) (timeout : ℤ) (trace : List Sent)
      → count_sent (send x target leg timeout trace).1 ≤ count_sent trace + 1
  unfolding send count_sent
  send-count_sent target leg timeout trace = elim (Bool-cases (x.valid_method leg.method)) [
    | inl e ↦ rw (send, e, if◌then◌else◌) (omega arith)
    | inr e ↦ rw (send, e, if◌then◌else◌) (omega arith)
  ]

  logout-count_sent :
      (target : Option Url) (leg : Leg) (cookie : Text) (trace : List Sent)
      → count_sent (logout x target leg cookie trace) ≤ count_sent trace + 1
  unfolding logout
  logout-count_sent none leg cookie trace = omega arith
  logout-count_sent (some u) leg cookie trace =
      send-count_sent u (with_cookie cookie leg) logout_timeout trace

  -- One attempt sends at most so many requests.
  abbrev Sends : ℕ → (List Sent → (ℕ × Option Failure) × List Sent) → Type 0
  Sends n act = (trace : List Sent) → count_sent (act trace).1 ≤ count_sent trace + n

  attempt-Sends : (target : Url) (leg : Leg) → Sends 1 (attempt x target leg)
  unfolding attempt
  attempt-Sends target leg trace = send-count_sent target leg (timeout_of leg.timeout) trace

  run_session-Sends :
      (target : Url) (leg : Leg) (lt : Url) (ll : Leg) (name : Text) (ot : Option Url) (ol : Leg)
      → Sends 3 (run_session x target leg lt ll name ot ol)
  unfolding run_session login
  run_session-Sends target leg lt ll name ot ol trace =
      let first = send x lt ll (timeout_of ll.timeout) trace in
      let entered = send-count_sent lt ll (timeout_of ll.timeout) trace in
      elim (Outcome-cases (session_cookie x name first.0)) [
        | inr (e, w) ↦ rw (run_session, login, w) (omega (arith, entered))
        | inl (cookie, w) ↦
            let made = attempt x target (with_cookie cookie leg) first.1 in
            rw (run_session, login, w)
              (omega (
                arith,
                entered,
                attempt-Sends target (with_cookie cookie leg) first.1,
                logout-count_sent ot ol cookie made.1,
              ))
      ]

  -- The attempts that are reported are at most those that are allowed, and each sends its legs.
  abbrev IsBounded : (n limit tried : ℕ) → List Sent → (ℕ × ℕ × Option Failure) × List Sent → Type 0
  IsBounded n limit tried trace r =
      (r.0.1 ≤ limit + tried)
      × (tried ≤ r.0.1)
      × (count_sent r.1 + n * tried ≤ count_sent trace + n * r.0.1)

  try_from-IsBounded :
      (n : ℕ) (act : List Sent → (ℕ × Option Failure) × List Sent)
      → Sends n act
      → (left tried : ℕ) (last : Option Failure) (trace : List Sent)
      → IsBounded n left tried trace (try_from x act left tried last trace)
  unfolding try_from
  try_from-IsBounded n act sends zero tried last trace = (omega arith, omega arith, omega arith)
  try_from-IsBounded n act sends (suc left) tried last trace =
      elim (Bool-cases (ltb 0 tried && x.context_ends trace)) [
        | inl w ↦ rw (try_from, w) (omega arith, omega arith, omega arith)
        | inr w ↦ elim (Option-cases (act trace).0.1) [
          | inl e ↦
              rw (try_from, w, e)
                (omega arith, omega arith, omega (arith, sends trace, round_more n tried))
          | inr (f, e) ↦ elim (Bool-cases (transient f)) [
            | inl t ↦
                let rest = try_from-IsBounded n act sends left (tried + 1) (some f) (act trace).1 in
                rw (try_from, w, e, t)
                  (
                    omega (arith, rest.0),
                    omega (arith, rest.1),
                    omega (arith, sends trace, round_more n tried, rest.2),
                  )
            | inr t ↦
                rw (try_from, w, e, t)
                  (omega arith, omega arith, omega (arith, sends trace, round_more n tried))
          ]
        ]
      ]

  repeat-IsBounded :
      (n : ℕ) (retryable : Bool) (act : List Sent → (ℕ × Option Failure) × List Sent)
      → Sends n act
      → (trace : List Sent)
      → IsBounded n (attempt_limit retryable) 0 trace (repeat x retryable act trace)
  unfolding repeat
  repeat-IsBounded n retryable act sends trace =
      try_from-IsBounded n act sends (attempt_limit retryable) 0 none trace

module _ (net : Net) (p : Policy) (x : Transport) where
  abbrev IsLimited :
      OptionalSession → Bool → List Sent → (Result × Option DoError) × List Sent → Type 0
  IsLimited s retryable trace r =
      (r.0.0.attempts ≤ attempt_limit retryable)
      × (count_sent r.1 ≤ count_sent trace + legs_per_attempt s * r.0.0.attempts)

  limited :
      (s : OptionalSession) (retryable : Bool) (trace : List Sent) (origin : Text)
      (r : (ℕ × ℕ × Option Failure) × List Sent)
      → IsBounded x (legs_per_attempt s) (attempt_limit retryable) 0 trace r
      → IsLimited s retryable trace (report net p origin r)
  unfolding report
  limited s retryable trace origin r h = (omega (arith, h.0), omega (arith, h.2))

  do_checked-IsLimited :
      (target : Url) (origin : Text) (leg : Leg) (retryable : Bool) (s : OptionalSession)
      (trace : List Sent)
      → IsLimited s retryable trace (do_checked net p x target origin leg retryable s trace)
  unfolding do_checked turn_down
  do_checked-IsLimited target origin leg retryable no_session trace =
      limited no_session retryable trace origin _
        (repeat-IsBounded x 1 retryable (attempt x target leg) (attempt-Sends x target leg) trace)
  do_checked-IsLimited target origin leg retryable (session l name o) trace =
      elim (Endpoints-cases (check_session net p l name o)) [
        | inr (e, w) ↦ rw (do_checked, w) (omega arith, omega arith)
        | inl (lu, ou, w) ↦
            rw (do_checked, w)
              (limited (session l name o) retryable trace origin _ (
                repeat-IsBounded x 3 retryable _
                  (run_session-Sends x target leg lu (leg_of l) name ou (leg_of o)) trace))
      ]

  -- `Client.Do` reports at most three attempts, and at most one if the request is not retryable; and what
  -- it sends is at most one request for each attempt that it reports, or three if there is a session.
  pub do_request-IsLimited :
      (r : Request) (trace : List Sent)
      → ((do_request net p x r trace).0.0.attempts ≤ (if is_retryable r then 3 else 1))
        × (count_sent (do_request net p x r trace).1
            ≤ count_sent trace
              + legs_per_attempt (session_of r) * (do_request net p x r trace).0.0.attempts)
  unfolding do_request turn_down
  do_request-IsLimited (request leg retryable s) trace =
      elim (Checked-cases (check net p leg.url)) [
        | inr (e, o, w) ↦ rw (do_request, w) (omega arith, omega arith)
        | inl (u, o, w) ↦ rw (do_request, w) (do_checked-IsLimited u o leg retryable s trace)
      ]
