-- ===== src/Tests/Claims.antt =====
-- internal/controller at two Automations that share a Deployment: what they claim, what they want
-- once they do not match, and that both arbitrate it alike.
use mathlib.Core.List.{Memᴰ}
use unifi_reactor.Base.{true, false, List, [], ◌∷◌, none, some, ◌≡◌, ◌↔◌, refl, arith}
use unifi_reactor.Base.Text.{Text, codes, same, leb_text}
use unifi_reactor.Base.Int.{ℤ, pos}
use unifi_reactor.Base.Dict.{lookup}
use unifi_reactor.Base.Sort.{sort_by}
use unifi_reactor.Engine.Arbiter.{Intent, resolve}
use unifi_reactor.Engine.Store.{Observation, StateStore, get}
use unifi_reactor.Controller.Automation.{Automation, Action, StateTrigger, unset, ExecutionStatus}
use unifi_reactor.Controller.Handlers.{replica, format, parse, handler_for, cluster_scoped_kind}
use unifi_reactor.Controller.Handlers.Levels.{parse-format}
use unifi_reactor.Controller.Claims.{
  TargetKey, target_key_for, references, targets_of, collect_targets, contains_key, same_key,
  is_desired_state, key_text, claimant_of,
}
use unifi_reactor.Controller.Evaluate.{matching_of}
use unifi_reactor.Controller.Evaluate.Condition.{Holds, matching_of-Holds}
use unifi_reactor.Controller.Peers.Agreement.{claims_agree, claims_seen_by}
use unifi_reactor.Controller.Retry.{attempts_after, retry_backoff}
use unifi_reactor.Controller.Retry.Backoff.{retry_backoff-schedule, schedule}

abbrev key : TargetKey
key = record { kind = codes "Deployment"; namespace = codes "media"; name = codes "qbit" }

abbrev scale : ℤ → Action
scale n = record {
  action_type = codes "kubernetes.scale";
  target = some (record { kind = codes "Deployment"; name = codes "qbit"; namespace = [] });
  replicas = some n;
  suspended = none;
  cordoned = none;
  timeout_seconds = none;
}

abbrev on_wan : StateTrigger
on_wan = record { provider = codes "unifi"; state = (codes "wan", codes "backup") ∷ [] }

abbrev automation : Text → ℤ → Automation
automation name n = record {
  namespace = codes "media";
  name = name;
  deleting = false;
  finalizers = [];
  spec = record {
    when = some on_wan;
    actions = scale n ∷ [];
    on_exit = scale (pos 2) ∷ [];
    reversal = unset;
    dry_run = false;
    suspend = false;
  };
  status = record {
    matching = none;
    observed_state = [];
    last_execution = none;
    release_attempts = pos 0;
  };
}

abbrev wan : Automation
wan = automation (codes "wan") (pos 1)

abbrev ups : Automation
ups = automation (codes "ups") (pos 0)

abbrev store : StateStore
store = record {
  current =
      (
        codes "unifi",
        record { stable = (codes "wan", codes "backup") ∷ []; pending = []; observed_at = pos 7 },
      )
      ∷ [];
  debounce = [];
  stale_after = [];
}

abbrev seen : Observation
seen = record {
  provider = codes "unifi";
  state = (codes "wan", codes "backup") ∷ [];
  observed_at = pos 7;
}

runs : Unit {0}
unfolding references targets_of collect_targets contains_key target_key_for same_key
    is_desired_state key_text claimant_of sort_by same leb_text cluster_scoped_kind handler_for get
    lookup attempts_after
runs = tt

parse-format_example : parse replica (format replica (pos 3)) ≡ some (pos 3)
parse-format_example = parse-format replica (pos 3) (omega arith)

abbrev wants : Text → ℤ → Intent
wants c n = record { claimant = c; level = n }

abbrev split : List Intent
split = wants (codes "b") (pos 2) ∷ wants (codes "a") (pos 1) ∷ []

matching_of-Holds_example : (matching_of (pos 9) store wan ≡ true) ↔ Holds seen.state on_wan.state
matching_of-Holds_example =
    matching_of-Holds (pos 9) store wan on_wan seen refl (unfold runs in refl)
      ((codes "backup", unfold runs in refl), tt)

claims_agree_example :
    resolve (claims_seen_by (pos 9) store key none (wan ∷ ups ∷ []) wan)
    ≡ resolve (claims_seen_by (pos 9) store key none (wan ∷ ups ∷ []) ups)
claims_agree_example =
    claims_agree (pos 9) store key none (wan ∷ ups ∷ []) wan ups
      (unfold runs in ((refl, tt), (tt, tt))) (Memᴰ.head refl) (Memᴰ.tail (Memᴰ.head refl))
      (unfold runs in refl) (unfold runs in refl)

retry_backoff-schedule_example : retry_backoff (pos 3) ≡ some (schedule 2)
retry_backoff-schedule_example = retry_backoff-schedule 2 (omega arith)

abbrev first : ExecutionStatus
first = record { succeeded = false; on_exit = false; attempts = pos 1 }

abbrev second : ExecutionStatus
second = record { succeeded = false; on_exit = false; attempts = pos 2 }

abbrev third : ExecutionStatus
third = record { succeeded = false; on_exit = false; attempts = pos 3 }
