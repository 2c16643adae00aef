-- ===== src/Lib.antt =====
-- UniFi Reactor, the operator that turns the state of a UniFi network into the levels of Kubernetes
-- workloads: a model of its provider, its engine, its reconciler and its outbound
-- requests, and what is proved of them.
--
-- The program. A provider reads a console and normalises what it sees into an observation, a map
-- from state keys to values. The engine (internal/engine) stores the latest observation of each
-- provider behind a debounce, and resolves competing claims on one target. The reconciler
-- (internal/controller) evaluates the condition of each Automation (api/v1alpha1) against the
-- store, and brings every target that the Automation names to the level that all Automations
-- sharing it agree on: the most restrictive of the claims, or, once nobody claims, the most
-- restrictive of the reversals.
-- On an upgrade a hook of the chart adopts the resource's definition into the Helm release
-- (internal/adopt); it shares no state with the rest.
--
-- The files, and the code that each models.
--   Base, Base/*             shared names; Go strings as byte lists, int64 and int32 as whole
--                            numbers, maps as association lists, slices.Sort, strconv
--   Engine/Arbiter           internal/engine/arbiter.go: Resolve. Its children prove that the
--                            result is a function of the set of claims, and whom it names
--   Engine/Store             internal/engine/state.go and internal/events/event.go: Observe, Get,
--                            Proving, Freshness and the debounce. Key is the state machine of one
--                            key, Pointwise the refinement of Observe to it, Debounce and Evidence
--                            its properties over runs, Reports the transitions, Patterns the
--                            choice of a sample count
--   Controller/Automation    api/v1alpha1/automation_types.go: the resource
--   Controller/Handlers      internal/controller/targets.go: target kinds and their levels
--   Controller/Claims        internal/controller/arbitration.go: targets, claims, reversals
--   Controller/Evaluate      internal/controller/automation_controller.go: evaluate, matchingOf
--   Controller/Peers         arbitration.go: referencingAutomations and the loop that gathers
--                            claims
--   Controller/Retry         automation_controller.go: the count of failures and the backoff
--   Controller/Cluster       targets.go: read and apply of a handler, and the API server they call,
--                            a record of operations (Cluster). Quiet is the law of a server that
--                            accepts every call while nobody else writes
--   Controller/Holding       arbitration.go: claimTarget, releaseTarget and the annotations. Its
--                            children prove what a claim and a release leave behind
--   Controller/Target        arbitration.go: reconcileTarget; Managers is internal/controller/hpa.go
--                            and Preview is previewFor. Withheld, Unclaimed, Driven and Settled are
--                            about the branches of a pass
--   Controller/Finalizer     automation_controller.go: reconcileTargets, reconcileFinalizer and
--                            finalize. Registry is the Automation that the API server holds
--   Controller/Sweep         internal/controller/release.go: the sweep before an uninstall
--   Controller/Edges         internal/controller/edge_actions.go: the actions that run on a transition
--   Controller/Reconcile     automation_controller.go: Reconcile, once the object is read. Committed is
--                            about when the edge actions run
--   Controller/Poller        internal/controller/unifi_poller.go: an observation over the store. Legal follows
--                            the vocabulary from the console to what the store reports
--   Unifi/Vocabulary         internal/providers/unifi/state.go: keys, values, the vocabulary
--   Unifi/Device             the records that the endpoints are decoded into, as far as they are read
--   Unifi/Slug, Levels, Wan  internal/providers/unifi/client.go and datausage.go: slugify, the levels of
--                            a UPS and of a data plan, and the choice of the live uplink
--   Unifi/Fleet, Draw        devices.go, firmware.go, temperature.go and poe.go: the tallies
--   Unifi/Outlets, Health    outlets.go; health.go and wifi.go
--   Unifi/Observe            client.go: Observe and stateFromDevices. Closed, Fit and Scanned prove that
--                            what is published is in the vocabulary; Apart, Lacking, Tallied, Counted
--                            and Whole follow the keys of the whole fleet to the published state
--   Unifi/Write              internal/providers/unifi/write.go: the allowlists of the console, and Apply
--                            around the write itself
--   Actions/Credentials      internal/actions/credentials.go: what a Secret contributes
--   Actions/Destination      internal/actions/destination.go: the allowlist and the address floor.
--                            Granted, Entry, Listed and Dialled are about what they let through
--   Actions/Exchange         internal/actions/client.go: one exchange, and one attempt with its session
--   Actions/Client           internal/actions/client.go: Do and its attempts. Permitted,
--                            Bounded and Ended are about what goes on the wire
--   Adopt                    internal/adopt/crd.go: the adoption of a CustomResourceDefinition by a Helm
--                            release. Owned is about the patch, Written about when it is sent
--   Tests                    runs at concrete inputs and an instance of every theorem
--
-- Conventions. A method that mutates its receiver returns the new state. A Go error, a missing map
-- entry and a nil pointer are `none`. A loop over a map runs over its association list in the
-- list's order, and the theorems hold for every order. Instants and durations are whole numbers of
-- nanoseconds. An integer that can wrap around does so in the model (`int32`, the 64-bit shift);
-- levels are whole numbers and a theorem that needs their range states it. All recursion is on the
-- data; the only fuel is that of printing decimals, one more than the number printed, which is
-- always enough since each round divides by ten.
--
-- The client of controller-runtime is a parameter: a theorem that needs it to accept calls says so by
-- `Quiet`, which also says what the server then stores and that a Scale may leave out its replicas at
-- 0; what the server holds of one Automation is `Registry`. The other theorems hold for every server,
-- with any error on any call. The functions
-- of controllerutil on finalizers are parameters too (`FinalizerLaws`). The loop of recordClaim
-- makes two rounds, so its model has fuel for one round after the first.
--
-- Names and addresses of the UniFi provider and of the outbound actions are sequences of runes, and
-- their predicates on letters are written on code points. The provider's float64 arithmetic is a
-- parameter (`Floats`); so are the parsers of URLs and addresses (`Net`) and the transport with the
-- answers it gives (`Transport`), which may depend on all that was sent before and which includes the
-- client's refusal of every redirect, so that one send is one request. What is sent is kept
-- as a list, the last request first.
--
-- Not modelled: logging, metrics and Kubernetes Events, the lock of the store (each method holds it
-- for its whole body), the HTTP and JSON layers, the command line and the generated deep copies.
pub mod Base
pub mod Engine
pub mod Unifi
pub mod Actions
pub mod Adopt
pub mod Controller
mod Tests
