-- ===== src/Actions/Client/Permitted.antt =====
-- No leg of a request goes anywhere that the policy does not permit.
use unifi_reactor.Base.{
  ℕ, zero, suc, Bool, ◌&&◌, List, [], ◌∷◌, Option, none, some, if◌then◌else◌, ◌≡◌, ◌⊎◌, inl, inr,
  refl, subst, Bool-cases, Option-cases, ◌+◌, ltb,
}
use unifi_reactor.Base.Text.{Text, same}
use unifi_reactor.Base.Int.{ℤ}
use unifi_reactor.Actions.Destination.{
  CheckError, Checked, Net, Policy, Url, accepted, check, refused,
}
use unifi_reactor.Actions.Destination.Granted.{IsPermitted, check-IsPermitted}
use unifi_reactor.Actions.Exchange.{
  Failure, Leg, OptionalSession, Outcome, Request, Sent, Transport, attempt, failure, login, logout,
  logout_timeout, no_session, request, run_session, send, session, session_cookie, success,
  timeout_of, transient, with_cookie,
}
use unifi_reactor.Actions.Client.{
  DoError, Endpoints, check_logout, check_session, do_checked, do_request, endpoints, has_session,
  leg_of, no_endpoints, repeat, report, try_from, turn_down,
}

pub Checked-cases :
    (r : Checked)
    → ((u : Url) × (o : Text) × (r ≡ accepted u o))
      ⊎ ((e : CheckError) × (o : Text) × (r ≡ refused e o))
Checked-cases (accepted u o) = inl (u, o, refl)
Checked-cases (refused e o) = inr (e, o, refl)

pub Endpoints-cases :
    (r : Endpoints)
    → ((u : Url) × (o : Option Url) × (r ≡ endpoints u o)) ⊎ ((e : DoError) × (r ≡ no_endpoints e))
Endpoints-cases (endpoints u o) = inl (u, o, refl)
Endpoints-cases (no_endpoints e) = inr (e, refl)

pub Outcome-cases :
    {A : Type 0} (r : Outcome A) → ((a : A) × (r ≡ success a)) ⊎ ((e : Failure) × (r ≡ failure e))
Outcome-cases (success a) = inl (a, refl)
Outcome-cases (failure e) = inr (e, refl)

module _ (net : Net) (p : Policy) where
  -- Every request that is on the wire went to a permitted URL.
  abbrev pub AllPermitted : List Sent → Type 0
  AllPermitted [] = Unit
  AllPermitted (s ∷ trace) = IsPermitted net p s.target × AllPermitted trace

  abbrev OptionPermitted : Option Url → Type 0
  OptionPermitted none = Unit
  OptionPermitted (some u) = IsPermitted net p u

  -- What an action does to the wire.
  abbrev KeepsPermitted : (List Sent → (ℕ × Option Failure) × List Sent) → Type 0
  KeepsPermitted act = (trace : List Sent) → AllPermitted trace → AllPermitted (act trace).1

  module _ (x : Transport) where
    send-AllPermitted :
        (target : Url) (leg : Leg) (timeout : ℤ) (trace : List Sent)
        → IsPermitted net p target
        → AllPermitted trace
        → AllPermitted (send x target leg timeout trace).1
    unfolding send
    send-AllPermitted target leg timeout trace h k = elim (Bool-cases (x.valid_method leg.method)) [
      | inl e ↦ rw (send, e, if◌then◌else◌) (h, k)
      | inr e ↦ rw (send, e, if◌then◌else◌) k
    ]

    logout-AllPermitted :
        (target : Option Url) (leg : Leg) (cookie : Text) (trace : List Sent)
        → OptionPermitted target
        → AllPermitted trace
        → AllPermitted (logout x target leg cookie trace)
    unfolding logout
    logout-AllPermitted none leg cookie trace h k = k
    logout-AllPermitted (some u) leg cookie trace h k =
        send-AllPermitted u (with_cookie cookie leg) logout_timeout trace h k

    attempt-AllPermitted :
        (target : Url) (leg : Leg)
        → IsPermitted net p target
        → KeepsPermitted (attempt x target leg)
    unfolding attempt
    attempt-AllPermitted target leg h trace k =
        send-AllPermitted target leg (timeout_of leg.timeout) trace h k

    run_session-AllPermitted :
        (target : Url) (leg : Leg) (login_target : Url) (login_leg : Leg) (name : Text)
        (logout_target : Option Url) (logout_leg : Leg)
        → IsPermitted net p target
        → IsPermitted net p login_target
        → OptionPermitted logout_target
        → KeepsPermitted
            (run_session x target leg login_target login_leg name logout_target logout_leg)
    unfolding run_session login
    run_session-AllPermitted target leg lt ll name ot ol h i j trace k =
        let before = send-AllPermitted lt ll (timeout_of ll.timeout) trace i k in
        elim (Outcome-cases
          (session_cookie x name (send x lt ll (timeout_of ll.timeout) trace).0)) [
            | inr (e, w) ↦ rw (run_session, login, w) before
            | inl (cookie, w) ↦
                rw (run_session, login, w)
                  (logout-AllPermitted ot ol cookie _ j
                    (attempt-AllPermitted target (with_cookie cookie leg) h _ before))
          ]

    try_from-AllPermitted :
        (act : List Sent → (ℕ × Option Failure) × List Sent)
        → KeepsPermitted act
        → (left tried : ℕ) (last : Option Failure) (trace : List Sent) → AllPermitted trace
        → AllPermitted (try_from x act left tried last trace).1
    unfolding try_from
    try_from-AllPermitted act keep zero tried last trace k = k
    try_from-AllPermitted act keep (suc left) tried last trace k =
        elim (Bool-cases (ltb 0 tried && x.context_ends trace)) [
          | inl w ↦ rw (try_from, w) k
          | inr w ↦ elim (Option-cases (act trace).0.1) [
            | inl e ↦ rw (try_from, w, e) (keep trace k)
            | inr (f, e) ↦ elim (Bool-cases (transient f)) [
              | inl t ↦
                  rw (try_from, w, e, t)
                    (try_from-AllPermitted act keep left (tried + 1) (some f) _ (keep trace k))
              | inr t ↦ rw (try_from, w, e, t) (keep trace k)
            ]
          ]
        ]

  -- The endpoints that are returned are permitted.
  abbrev EndpointsPermitted : Endpoints → Type 0
  EndpointsPermitted (endpoints u o) = IsPermitted net p u × OptionPermitted o
  EndpointsPermitted (no_endpoints e) = Unit

  check_logout-Permitted :
      (u : Url) (raw : Text) → IsPermitted net p u → EndpointsPermitted (check_logout net p u raw)
  unfolding check_logout
  check_logout-Permitted u raw h = elim (Bool-cases (same raw [])) [
    | inl e ↦ rw (check_logout, e, if◌then◌else◌) (h, tt)
    | inr e ↦ elim (Checked-cases (check net p raw)) [
      | inr (w, o, k) ↦ rw (check_logout, e, k, if◌then◌else◌) tt
      | inl (v, o, k) ↦
          rw (check_logout, e, k, if◌then◌else◌) (h, (check-IsPermitted net p raw v o k).1)
    ]
  ]

  check_session-Permitted :
      (l : Request) (cookie : Text) (o : Request)
      → EndpointsPermitted (check_session net p l cookie o)
  unfolding check_session
  check_session-Permitted l cookie o = elim (Bool-cases (same cookie [])) [
    | inl e ↦ rw (check_session, e, if◌then◌else◌) tt
    | inr e ↦ elim (Bool-cases (has_session l)) [
      | inl s ↦ rw (check_session, e, s, if◌then◌else◌) tt
      | inr s ↦ elim (Checked-cases (check net p (leg_of l).url)) [
        | inr (w, t, k) ↦ rw (check_session, e, s, k, if◌then◌else◌) tt
        | inl (v, t, k) ↦
            rw (check_session, e, s, k, if◌then◌else◌)
              (check_logout-Permitted v (leg_of o).url
                (check-IsPermitted net p (leg_of l).url v t k).1)
      ]
    ]
  ]

  module _ (x : Transport) where
    do_checked-AllPermitted :
        (target : Url) (origin : Text) (leg : Leg) (retryable : Bool) (s : OptionalSession)
        (trace : List Sent)
        → IsPermitted net p target
        → AllPermitted trace
        → AllPermitted (do_checked net p x target origin leg retryable s trace).1
    unfolding do_checked repeat report turn_down
    do_checked-AllPermitted target origin leg retryable no_session trace h k =
        try_from-AllPermitted x (attempt x target leg) (attempt-AllPermitted x target leg h) _ 0
          none trace k
    do_checked-AllPermitted target origin leg retryable (session l name o) trace h k =
        elim (Endpoints-cases (check_session net p l name o)) [
          | inr (e, w) ↦ rw (do_checked, w) k
          | inl (lu, ou, w) ↦
              let ends = subst EndpointsPermitted w (check_session-Permitted l name o) in
              rw (do_checked, w)
                (try_from-AllPermitted x _
                  (run_session-AllPermitted x target leg lu (leg_of l) name ou (leg_of o) h ends.0
                    ends.1)
                  _ 0 none trace k)
        ]

    -- Whatever the request, its session and the answers are, if all that was sent before went to URLs
    -- that the policy permits, so does all that is on the wire after `Client.Do`: each attempt, and each
    -- login and logout.
    pub do_request-AllPermitted :
        (r : Request) (trace : List Sent)
        → AllPermitted trace
        → AllPermitted (do_request net p x r trace).1
    unfolding do_request turn_down
    do_request-AllPermitted (request leg retryable s) trace k =
        elim (Checked-cases (check net p leg.url)) [
          | inr (e, o, w) ↦ rw (do_request, w) k
          | inl (u, o, w) ↦
              rw (do_request, w)
                (do_checked-AllPermitted u o leg retryable s trace
                  (check-IsPermitted net p leg.url u o w).1 k)
        ]
