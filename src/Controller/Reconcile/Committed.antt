-- ===== src/Controller/Reconcile/Committed.antt =====
-- When the edge actions of a transition run.
use unifi_reactor.Base.{
  Bool, true, false, not, ◌&&◌, List, [], Option, none, some, if◌then◌else◌, ◌≡◌, ◌⊎◌, inl, inr,
  refl, sym, ap, ◌∙◌, subst, arith, Bool-cases, Option-cases,
}
use unifi_reactor.Base.Int.{ℤ}
use unifi_reactor.Controller.Automation.{Automation, StateTrigger, in_force, is_matching}
use unifi_reactor.Controller.Evaluate.{Evaluation, evaluate, is_nil}
use unifi_reactor.Controller.Cluster.{Cluster, Error}
use unifi_reactor.Controller.Target.{Reconciler}
use unifi_reactor.Controller.Finalizer.{
  Finalized, Passes, finalize, reconcile_finalizer, reconcile_targets,
}
use unifi_reactor.Controller.Edges.{EdgeExecution, Runners, run_edge_actions}
use unifi_reactor.Controller.Reconcile.{
  Reconciled, act, any_changed, commit, decide, done, fail, fire, matching_after, readable,
  reconcile, reconcile_live, same_bool, status_after, write_status,
}

module _ (c : Cluster) (x : Runners c.World) where
  -- No edge action ran or was skipped.
  abbrev IsSilent : Reconciled c.World → Type 0
  IsSilent o = o.edges ≡ []

  done-IsSilent :
      (a : Automation) (after : Option ℤ) (e : Option Error) (w : c.World)
      → IsSilent (done c x a after e w)
  unfolding done
  done-IsSilent a after e w = refl

  write_status-IsSilent :
      (a : Automation) (after : Option ℤ) (w : c.World) → IsSilent (write_status c x a after w)
  unfolding write_status done
  write_status-IsSilent a after w = elim (Option-cases (c.update_status a w).0) [
    | inl e ↦ rw (write_status, e) refl
    | inr (f, e) ↦ rw (write_status, e) refl
  ]

  -- The automation that is committed after the passes.
  abbrev pub committed_of : Reconciler → Automation → Evaluation → c.World → Automation
  committed_of r a e w =
      let matching = matching_after a e in
      let claiming = matching && in_force a in
      let p =
        reconcile_targets c r a
          (record { matching = matching; claiming = claiming; preview = not (in_force a) }) w in
      record a { status = status_after a.status e matching claiming false (any_changed p.outcomes) }

  abbrev pub passes_of : Reconciler → Automation → Evaluation → c.World → Passes c.World
  passes_of r a e w =
      reconcile_targets c r a
        (record {
          matching = matching_after a e;
          claiming = matching_after a e && in_force a;
          preview = not (in_force a);
        })
        w

  -- All that has to have happened before an edge action runs: the Automation is in force, its condition
  -- was read and has changed, every target was applied, and the new status, with the outcome in it, is
  -- written; the actions run on the world that this write left.
  pub record Fired (r : Reconciler) (a : Automation) (e : Evaluation) (w : c.World)
      (edges : List EdgeExecution) : Type 0 where
    pub in_force_holds : in_force a ≡ true
    pub is_read : readable e ≡ true
    pub is_changed : same_bool e.matching (is_matching a.status) ≡ false
    pub is_applied : (passes_of r a e w).error ≡ none
    pub is_written : (c.update_status (committed_of r a e w) (passes_of r a e w).world).0 ≡ none
    pub is_committed : (committed_of r a e w).status.matching ≡ some e.matching
    pub ran :
        edges
        ≡ (run_edge_actions x r.dry_run
            (committed_of r a e w)
            e.matching
            (c.update_status (committed_of r a e w) (passes_of r a e w).world).1).0

  fail-IsSilent :
      (a : Automation) (claiming : Bool) (w : c.World) → IsSilent (fail c x a claiming w)
  unfolding fail
  fail-IsSilent a claiming w = write_status-IsSilent _ _ w

  matching_after-read :
      (a : Automation) (e : Evaluation) → readable e ≡ true → matching_after a e ≡ e.matching
  unfolding matching_after
  matching_after-read a e h = rw (h, if◌then◌else◌) refl

  edges-fire :
      (r : Reconciler) (a : Automation) (matching : Bool) (w : c.World)
      → (fire c x r a matching w).edges ≡ (run_edge_actions x r.dry_run a matching w).0
  unfolding fire
  edges-fire r a matching w = refl

  -- A commit is silent, or its write succeeded on a transition of an Automation in force.
  commit_cases :
      (r : Reconciler) (a : Automation) (was matching : Bool) (w : c.World)
      → IsSilent (commit c x r a was matching w)
        ⊎ (((c.update_status a w).0 ≡ none)
            × (same_bool matching was ≡ false)
            × (in_force a ≡ true)
            × ((commit c x r a was matching w).edges
                ≡ (run_edge_actions x r.dry_run a matching (c.update_status a w).1).0))
  unfolding commit done
  commit_cases r a was matching w = elim (Option-cases (c.update_status a w).0) [
    | inr (f, e) ↦ rw (commit, e) (inl refl)
    | inl e ↦ elim (Bool-cases (not (same_bool matching was) && in_force a)) [
      | inr k ↦ rw (commit, e, k, if◌then◌else◌) (inl refl)
      | inl k ↦
          rw (commit, e, k, if◌then◌else◌)
            (inr (
              refl,
              ground (arith, k),
              ground (arith, k),
              edges-fire r a matching (c.update_status a w).1,
            ))
    ]
  ]

  act-Fired :
      (r : Reconciler) (a : Automation) (e : Evaluation) (w : c.World)
      → (in_force a ≡ true → readable e ≡ true)
      → IsSilent (act c x r a e w) ⊎ Fired r a e w (act c x r a e w).edges
  unfolding act in_force status_after
  act-Fired r a e w h =
      let claiming = matching_after a e && in_force a in
      elim (Option-cases (passes_of r a e w).error) [
        | inr (f, p) ↦ rw (act, p) (inl (fail-IsSilent _ claiming (passes_of r a e w).world))
        | inl p ↦
            let b = committed_of r a e w in
            let out =
              commit_cases r b (is_matching a.status) (matching_after a e)
                (passes_of r a e w).world in
            elim out [
              | inl k ↦ rw (act, p) (inl k)
              | inr (written, changed, forced, ran) ↦
                  let read = matching_after-read a e (h forced) in
                  rw (act, p)
                    (inr (record {
                      in_force_holds = forced;
                      is_read = h forced;
                      is_changed = rw (← read) changed;
                      is_applied = p;
                      is_written = written;
                      is_committed = ap (λ (m : Bool). some m) read;
                      ran =
                          ran
                          ∙ ap
                              (λ (m : Bool).
                                (run_edge_actions x r.dry_run b m
                                  (c.update_status b (passes_of r a e w).world).1).0)
                              read;
                    }))
            ]
      ]

  decide-Fired :
      (r : Reconciler) (a : Automation) (e : Evaluation) (w : c.World)
      → IsSilent (decide c x r a e w) ⊎ Fired r a e w (decide c x r a e w).edges
  unfolding decide
  decide-Fired r a e w = elim (Bool-cases (in_force a && not e.known)) [
    | inl k ↦ rw (decide, k, if◌then◌else◌) (inl (write_status-IsSilent _ _ w))
    | inr k ↦ elim (Bool-cases (in_force a && not (is_nil e.missing))) [
      | inl l ↦ rw (decide, k, l, if◌then◌else◌) (inl (write_status-IsSilent _ _ w))
      | inr l ↦ rw (decide, k, l, if◌then◌else◌) (act-Fired r a e w (λ h. ground (arith, h, k, l)))
    ]
  ]

  -- The Automation as its finalizer was put right.
  abbrev pub finalized_of : Reconciler → Automation → c.World → Finalized c.World
  finalized_of r a w = reconcile_finalizer c r a w

  reconcile_live-Fired :
      (r : Reconciler) (a : Automation) (w : c.World)
      → IsSilent (reconcile_live c x r a w)
        ⊎ (((finalized_of r a w).error ≡ none)
            × Fired r
                (finalized_of r a w).automation
                (evaluate r.now r.store (finalized_of r a w).automation)
                (finalized_of r a w).world
                (reconcile_live c x r a w).edges)
  unfolding reconcile_live done
  reconcile_live-Fired r a w =
      let f = finalized_of r a w in
      elim (Option-cases f.error) [
        | inr (g, p) ↦ rw (reconcile_live, p) (inl refl)
        | inl p ↦ elim (decide-Fired r f.automation (evaluate r.now r.store f.automation) f.world) [
          | inl k ↦ rw (reconcile_live, p) (inl k)
          | inr k ↦ rw (reconcile_live, p) (inr (refl, k))
        ]
      ]

  -- An object that is not deleted, with a trigger.
  at_live :
      (b : Bool) (o : Option StateTrigger) (y z live : Reconciled c.World) (t : StateTrigger)
      → b ≡ false
      → o ≡ some t
      → (if b then y else (elim o as (λ u. Reconciled c.World) [ none ↦ z | some u ↦ live ])) ≡ live
  at_live b o y z live t d e = rw (d, e, if◌then◌else◌) refl

  -- A reconcile that records an edge action is one of an Automation that is not being deleted, whose
  -- finalizer was put right, that is in force, whose condition was read and differs from the recorded
  -- one, whose targets were all applied without an error, and whose new status, with the new outcome,
  -- was written before; and what it records is the run of the edge actions on the world that this write
  -- left.
  pub reconcile-Fired :
      (r : Reconciler) (a : Automation) (w : c.World)
      → is_nil (reconcile c x r a w).edges ≡ false
      → (a.deleting ≡ false)
        × ((finalized_of r a w).error ≡ none)
        × Fired r
            (finalized_of r a w).automation
            (evaluate r.now r.store (finalized_of r a w).automation)
            (finalized_of r a w).world
            (reconcile c x r a w).edges
  unfolding reconcile is_nil done
  reconcile-Fired r a w h = elim (Bool-cases a.deleting) [
    | inl d ↦
        let none_ran : is_nil (done c x (finalize c r a w).automation none none w).edges ≡ false =
          rw (reconcile, d, if◌then◌else◌) at h in
        absurd (ground (arith, none_ran))
    | inr d ↦ elim (Option-cases a.spec.when) [
      | inl e ↦
          let none_ran : is_nil (done c x a none none w).edges ≡ false =
            rw (reconcile, d, e, if◌then◌else◌) at h in
          absurd (ground (arith, none_ran))
      | inr (t, e) ↦
          let live : reconcile c x r a w ≡ reconcile_live c x r a w =
            at_live a.deleting a.spec.when _ _ (reconcile_live c x r a w) t d e in
          elim (reconcile_live-Fired r a w) [
            | inl k ↦
                let quiet : (reconcile c x r a w).edges ≡ [] =
                  ap (λ (o : Reconciled c.World). o.edges) live ∙ k in
                absurd (ground (arith, ap (is_nil {A = EdgeExecution}) quiet))
            | inr (p, k) ↦ (
              d,
              p,
              subst
                  (λ (o : Reconciled c.World).
                    Fired r (finalized_of r a w).automation
                      (evaluate r.now r.store (finalized_of r a w).automation)
                      (finalized_of r a w).world o.edges)
                  (sym live) k,
            )
          ]
    ]
  ]
