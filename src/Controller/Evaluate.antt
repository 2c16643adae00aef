-- ===== src/Controller/Evaluate.antt =====
-- internal/controller/automation_controller.go, `evaluate`, and arbitration.go, `matchingOf`:
-- comparing an Automation's condition with the stored observation, with no side effects.
pub mod Condition
use unifi_reactor.Base.{
  Bool, true, false, not, ◌&&◌, ◌||◌, List, [], ◌∷◌, ◌++◌, Option, none, some, if◌then◌else◌, ◌≡◌,
  ◌↔◌, refl, arith, Option-cases, Bool-cases, inl, inr,
}
use unifi_reactor.Base.Text.{Text, same, same_refl, same→eq}
use unifi_reactor.Base.Int.{ℤ, pos}
use unifi_reactor.Base.Sort.{text_order, sort}
use unifi_reactor.Base.Dict.{Dict, lookup, insert, is_some}
use unifi_reactor.Engine.Store.{Observation, Freshness, StateStore, get, freshness}
use unifi_reactor.Controller.Automation.{Automation, StateTrigger, is_matching, in_force}

-- The zero value of `observedAt` is `none`.
pub record Evaluation : Type 0 where
  pub matching : Bool
  pub observed : Dict Text
  pub missing : List Text
  pub known : Bool
  pub observed_at : Option ℤ
  pub fresh : Option Freshness

abbrev pub unread : Evaluation
unread = record {
  matching = true;
  observed = [];
  missing = [];
  known = false;
  observed_at = none;
  fresh = none;
}

-- The body of the loop of `evaluate`, for one wanted key.
unfoldable pub evaluate_key : Text → Text → Option Text → Evaluation → Evaluation
evaluate_key key want none e = record e { missing = e.missing ++ (key ∷ []) }
evaluate_key key want (some got) e = record e {
  observed = insert key got e.observed;
  matching = e.matching && same got want;
}

unfoldable pub evaluate_keys : Dict Text → Dict Text → Evaluation → Evaluation
unfolding evaluate_key
evaluate_keys state [] e = e
evaluate_keys state ((key, want) ∷ wanted) e =
    evaluate_keys state wanted (evaluate_key key want (lookup key state) e)

unfoldable pub evaluate_trigger : ℤ → StateStore → StateTrigger → Evaluation
evaluate_trigger now s when = elim (get s when.provider) [
  | none ↦ unread
  | some o ↦
      let e = evaluate_keys o.state when.state (record unread {
        known = true;
        observed_at = some o.observed_at;
        fresh = freshness now s when.provider;
      }) in
      record e { missing = sort e.missing }
]

-- `evaluate`
unfoldable pub evaluate : ℤ → StateStore → Automation → Evaluation
unfolding evaluate_trigger
evaluate now s a = elim a.spec.when [ none ↦ unread | some when ↦ evaluate_trigger now s when ]

unfoldable pub is_nil {ℓ} : {A : Type ℓ} → List A → Bool
is_nil [] = true
is_nil (x ∷ xs) = false

-- `matchingOf`: what cannot be read leaves the last recorded matching in place.
unfoldable pub matching_of : ℤ → StateStore → Automation → Bool
matching_of now s a =
    let e = evaluate now s a in
    if not e.known || not (is_nil e.missing) then is_matching a.status else e.matching
