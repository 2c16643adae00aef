-- ===== src/Actions/Client/Ended.antt =====
-- A session that is entered is ended, whatever becomes of the request.
use unifi_reactor.Base.{ℕ, true, List, ◌∷◌, Option, some, if◌then◌else◌, ◌≡◌, refl, sym, ap, ◌∙◌}
use unifi_reactor.Base.Text.{Text, same}
use unifi_reactor.Base.Int.{ℤ}
use unifi_reactor.Base.Dict.{lookup, insert, lookup-insert}
use unifi_reactor.Actions.Destination.{Url}
use unifi_reactor.Actions.Exchange.{
  Failure, Leg, Sent, Transport, attempt, header_cookie, header_user_agent, login, logout,
  logout_timeout, run_session, send, sent_of, success, user_agent, with_cookie,
}

module _ (x : Transport) where
  cookie_of-sent_of :
      (target : Url) (leg : Leg) (cookie : Text) (timeout : ℤ)
      → lookup header_cookie (sent_of x target (with_cookie cookie leg) timeout).header
        ≡ some cookie
  unfolding with_cookie same
  cookie_of-sent_of target leg cookie timeout =
      lookup-insert header_user_agent header_cookie user_agent
        (insert header_cookie cookie leg.header)
      ∙ (lookup-insert header_cookie header_cookie cookie leg.header ∙ refl)

  sent-send :
      (target : Url) (leg : Leg) (timeout : ℤ) (trace : List Sent)
      → x.valid_method leg.method ≡ true
      → (send x target leg timeout trace).1 ≡ sent_of x target leg timeout ∷ trace
  unfolding send
  sent-send target leg timeout trace v = rw (send, v, if◌then◌else◌) refl

  -- Where the login of a session gives a cookie, and the session has a logout whose method can be sent,
  -- the last request on the wire is that logout, with the cookie and under the logout's own deadline,
  -- whether the request in between succeeds or fails; and what is returned is the outcome of that
  -- request, sent with the cookie once the login is on the wire.
  pub run_session-logout :
      (target : Url) (leg : Leg) (login_target : Url) (login_leg : Leg) (name : Text)
      (logout_target : Url) (logout_leg : Leg) (trace : List Sent) (cookie : Text)
      → (login x login_target login_leg name trace).0 ≡ success cookie
      → x.valid_method logout_leg.method ≡ true
      → (last : Sent) × (before : List Sent) × ((run_session x target leg login_target login_leg
            name
            (some logout_target)
            logout_leg
            trace).1
          ≡ last ∷ before)
        × (last.target ≡ logout_target)
        × (last.timeout ≡ logout_timeout)
        × (lookup header_cookie last.header ≡ some cookie)
        × ((attempt x target (with_cookie cookie leg) (login x login_target login_leg name trace).1)
            ≡ (
              (run_session x target leg login_target login_leg name
                  (some logout_target)
                  logout_leg
                  trace).0,
              before,
            ))
  unfolding run_session logout send with_cookie
  run_session-logout target leg lt ll name ot ol trace cookie e v =
      let made = attempt x target (with_cookie cookie leg) (login x lt ll name trace).1 in
      let run : run_session x target leg lt ll name (some ot) ol trace
          ≡ (made.0, logout x (some ot) ol cookie made.1) =
        rw (run_session, e) refl in
      let closing : logout x (some ot) ol cookie made.1
          ≡ sent_of x ot (with_cookie cookie ol) logout_timeout ∷ made.1 =
        sent-send ot (with_cookie cookie ol) logout_timeout made.1 v in
      (
        sent_of x ot (with_cookie cookie ol) logout_timeout,
        made.1,
        ap (λ (r : (ℕ × Option Failure) × List Sent). r.1) run ∙ closing,
        refl,
        refl,
        cookie_of-sent_of ot ol cookie logout_timeout,
        ap (λ (r : (ℕ × Option Failure)). (r, made.1))
            (sym (ap (λ (r : (ℕ × Option Failure) × List Sent). r.0) run)),
      )
