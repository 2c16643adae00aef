-- ===== src/Unifi/Write/Listed.antt =====
-- What is written on the console is on the operator's lists.
use unifi_reactor.Base.{
  Bool, true, false, ◌&&◌, List, [], ◌∷◌, Option, none, some, if◌then◌else◌, ◌≡◌, ◌⊎◌, inl, inr,
  refl, sym, ap, subst, ◌∙◌, arith, Bool-cases, Option-cases,
}
use unifi_reactor.Base.Text.{Text, same, same→eq}
use unifi_reactor.Base.Int.{same_ℤ, same_ℤ→eq}
use unifi_reactor.Unifi.Outlets.{is_placeholder_outlet_name}
use unifi_reactor.Unifi.Write.{
  ActionsConfig, Applied, Command, Console, ConsoleAction, OutletRef, PortRef, WritePolicy,
  allows_outlet, allows_port, allows_wlan, apply_write, check_command, command_of, cycle_poe_port,
  is_policy_empty, new_write_policy, normalize_mac, parse_all, parse_outlet_ref, parse_port_ref,
  refuse, set_outlet_relay, set_wlan_enabled, write_in_session,
}

-- An entry of the list is this one.
abbrev pub HasItem : {A : Type 0} → List A → A → Type 0
HasItem [] a = ⊥
HasItem (x ∷ xs) a = (x ≡ a) ⊎ HasItem xs a

-- An entry of the list is read as this value.
abbrev pub Reads : {A : Type 0} → (Text → Option A) → List Text → A → Type 0
Reads parse [] a = ⊥
Reads parse (entry ∷ entries) a = (parse entry ≡ some a) ⊎ Reads parse entries a

allows_wlan-HasItem : (ns : List Text) (name : Text) → allows_wlan ns name ≡ true → HasItem ns name
unfolding allows_wlan
allows_wlan-HasItem [] name h = ground arith
allows_wlan-HasItem (n ∷ ns) name h = elim (Bool-cases (same n name)) [
  | inl e ↦ inl (same→eq n name e)
  | inr e ↦ inr (allows_wlan-HasItem ns name (ground arith))
]

allows_port-HasItem :
    (qs : List PortRef) (ref : PortRef) → allows_port qs ref ≡ true → HasItem qs ref
unfolding allows_port
allows_port-HasItem [] ref h = ground arith
allows_port-HasItem (q ∷ qs) ref h =
    elim (Bool-cases (same q.mac ref.mac && same_ℤ q.port ref.port)) [
      | inl e ↦
          let mac : q.mac ≡ ref.mac = same→eq q.mac ref.mac (ground arith) in
          let port : q.port ≡ ref.port = same_ℤ→eq q.port ref.port (ground arith) in
          inl (cc (mac, port))
      | inr e ↦ inr (allows_port-HasItem qs ref (ground arith))
    ]

allows_outlet-HasItem :
    (os : List OutletRef) (ref : OutletRef) → allows_outlet os ref ≡ true → HasItem os ref
unfolding allows_outlet
allows_outlet-HasItem [] ref h = ground arith
allows_outlet-HasItem (o ∷ os) ref h =
    elim (Bool-cases (same o.mac ref.mac && same_ℤ o.index ref.index && same o.name ref.name)) [
      | inl e ↦
          let mac : o.mac ≡ ref.mac = same→eq o.mac ref.mac (ground arith) in
          let index : o.index ≡ ref.index = same_ℤ→eq o.index ref.index (ground arith) in
          let name : o.name ≡ ref.name = same→eq o.name ref.name (ground arith) in
          inl (cc (mac, index, name))
      | inr e ↦ inr (allows_outlet-HasItem os ref (ground arith))
    ]

module _ (to_lower : Text → Text) where
  parse_all-Reads :
      {A : Type 0} (parse : Text → Option A) (entries : List Text) (xs : List A) (a : A)
      → parse_all to_lower parse entries ≡ some xs
      → HasItem xs a
      → Reads parse entries a
  unfolding parse_all
  parse_all-Reads parse [] xs a e h =
      let empty : [] ≡ xs = ground arith in absurd (subst (λ ys. HasItem ys a) (sym empty) h)
  parse_all-Reads parse (entry ∷ entries) xs a e h = elim (Option-cases (parse entry)) [
    | inl p ↦ absurd (ground (arith, p))
    | inr (x, p) ↦ elim (Option-cases (parse_all to_lower parse entries)) [
      | inl q ↦ absurd (ground (arith, p, q))
      | inr (ys, q) ↦
          let list : x ∷ ys ≡ xs = ground (arith, p, q) in
          elim (subst (λ zs. HasItem zs a) (sym list) h) [
            | inl k ↦ inl (p ∙ ap (λ z. some z) k)
            | inr k ↦ inr (parse_all-Reads parse entries ys a q k)
          ]
    ]
  ]

  -- The operator's lists have the object of the command: the name of the network; an entry that reads as
  -- the switch and the port; an entry that reads as the UPS, the index and the name of the outlet, which
  -- then is no placeholder of the console.
  abbrev pub IsListed : ActionsConfig → Command → Type 0
  IsListed cfg (set_wlan_enabled name want) = HasItem cfg.allowed_wlans name
  IsListed cfg (cycle_poe_port device port) =
      Reads (parse_port_ref to_lower) cfg.allowed_poe_ports
        (record { mac = normalize_mac to_lower device; port = port })
  IsListed cfg (set_outlet_relay device index name want) =
      (is_placeholder_outlet_name name ≡ false)
      × Reads (parse_outlet_ref to_lower) cfg.allowed_outlets
          (record { mac = normalize_mac to_lower device; index = index; name = name })

  -- The parts of a policy come from the lists.
  parts-new_write_policy :
      (cfg : ActionsConfig) (p : WritePolicy)
      → new_write_policy to_lower cfg ≡ some p
      → (cfg.allowed_wlans ≡ p.wlans)
        × (parse_all to_lower (parse_port_ref to_lower) cfg.allowed_poe_ports ≡ some p.ports)
        × (parse_all to_lower (parse_outlet_ref to_lower) cfg.allowed_outlets ≡ some p.outlets)
  unfolding new_write_policy
  parts-new_write_policy cfg p e =
      let ports =
        Option-cases (parse_all to_lower (parse_port_ref to_lower) cfg.allowed_poe_ports) in
      let outlets =
        Option-cases (parse_all to_lower (parse_outlet_ref to_lower) cfg.allowed_outlets) in
      elim ports [
        | inl q ↦ absurd (ground (arith, q))
        | inr (ps, q) ↦ elim outlets [
          | inl o ↦ absurd (ground (arith, q, o))
          | inr (os, o) ↦
              let made : some (record {
                wlans = cfg.allowed_wlans;
                ports = ps;
                outlets = os;
                battery_backed = cfg.allow_battery_backed_outlets;
              })
                  ≡ some p =
                rw (new_write_policy, q, o) at e in
              (ground (arith, made), ground (arith, made, q), ground (arith, made, o))
        ]
      ]

  check_command-IsListed :
      (cfg : ActionsConfig) (p : WritePolicy) (k : Command)
      → new_write_policy to_lower cfg ≡ some p
      → check_command to_lower p k ≡ none
      → IsListed cfg k
  unfolding check_command
  check_command-IsListed cfg p (set_wlan_enabled name want) e h =
      let parts = parts-new_write_policy cfg p e in
      let found : allows_wlan p.wlans name ≡ true = ground arith in
      subst (λ (ns : List Text). HasItem ns name) (sym parts.0)
        (allows_wlan-HasItem p.wlans name found)
  check_command-IsListed cfg p (cycle_poe_port device port) e h =
      let parts = parts-new_write_policy cfg p e in
      let ref : PortRef = record { mac = normalize_mac to_lower device; port = port } in
      let found : allows_port p.ports ref ≡ true = ground arith in
      parse_all-Reads (parse_port_ref to_lower) cfg.allowed_poe_ports p.ports ref parts.1
        (allows_port-HasItem p.ports ref found)
  check_command-IsListed cfg p (set_outlet_relay device index name want) e h =
      let parts = parts-new_write_policy cfg p e in
      let ref : OutletRef = record {
        mac = normalize_mac to_lower device;
        index = index;
        name = name;
      } in
      let named : is_placeholder_outlet_name name ≡ false = ground arith in
      let found : allows_outlet p.outlets ref ≡ true = ground (arith, named) in
      (
        named,
        parse_all-Reads (parse_outlet_ref to_lower) cfg.allowed_outlets p.outlets ref parts.2
            (allows_outlet-HasItem p.outlets ref found),
      )

  module _ {World : Type 0} (c : Console World) where
    -- What a write that was executed comes from.
    abbrev Executed : WritePolicy → Bool → ConsoleAction → World → Applied World → Type 0
    Executed p credentialed a w r =
        (k : Command)
        → r.executed ≡ some k
        → (command_of a ≡ some k)
          × (credentialed ≡ true)
          × (check_command to_lower p k ≡ none)
          × ((c.login w).0 ≡ none)
          × (r.world ≡ c.logout (c.execute k (c.login w).1).1)

    session-Executed :
        (j k : Command) (w : World)
        → (write_in_session to_lower c j w).executed ≡ some k
        → (j ≡ k)
          × ((c.login w).0 ≡ none)
          × ((write_in_session to_lower c j w).world ≡ c.logout (c.execute k (c.login w).1).1)
    unfolding write_in_session refuse
    session-Executed j k w e = elim (Option-cases (c.login w).0) [
      | inr (f, l) ↦
          let nothing : none ≡ some k = rw (write_in_session, l) at e in absurd (ground arith)
      | inl l ↦
          let some_same : some j ≡ some k = rw (write_in_session, l) at e in
          let same_command : j ≡ k = ground arith in
          let left : (write_in_session to_lower c j w).world
              ≡ c.logout (c.execute j (c.login w).1).1 =
            rw (write_in_session, l) refl in
          (
            same_command,
            l,
            left ∙ ap (λ (i : Command). c.logout (c.execute i (c.login w).1).1) same_command,
          )
    ]

    apply_write-Executed :
        (p : WritePolicy) (credentialed : Bool) (a : ConsoleAction) (w : World)
        → Executed p credentialed a w (apply_write to_lower c p credentialed a w)
    unfolding apply_write refuse
    apply_write-Executed p credentialed a w k e = elim (Option-cases (command_of a)) [
      | inl o ↦ let nothing : none ≡ some k = rw (apply_write, o) at e in absurd (ground arith)
      | inr (j, o) ↦ elim (Bool-cases (is_policy_empty p)) [
        | inl x ↦
            let nothing : none ≡ some k = rw (apply_write, o, x, if◌then◌else◌) at e in
            absurd (ground arith)
        | inr x ↦ elim (Bool-cases credentialed) [
          | inr y ↦
              let nothing : none ≡ some k = rw (apply_write, o, x, y, if◌then◌else◌) at e in
              absurd (ground arith)
          | inl y ↦ elim (Option-cases (check_command to_lower p j)) [
            | inr (g, z) ↦
                let nothing : none ≡ some k = rw (apply_write, o, x, y, z, if◌then◌else◌) at e in
                absurd (ground arith)
            | inl z ↦
                let run : apply_write to_lower c p credentialed a w
                    ≡ write_in_session to_lower c j w =
                  rw (apply_write, o, x, y, z, if◌then◌else◌) refl in
                let done =
                  session-Executed j k w (sym (ap (λ (r : Applied World). r.executed) run) ∙ e) in
                (
                  o ∙ ap (λ (i : Command). some i) done.0,
                  y,
                  subst (λ i. check_command to_lower p i ≡ none) done.0 z,
                  done.1,
                  ap (λ (r : Applied World). r.world) run ∙ done.2,
                )
          ]
        ]
      ]
    ]

    -- Under a policy that is read from the operator's lists, a write that is executed is the one that the
    -- action asks for, its object is on the lists (an outlet with its UPS, its index and its name, which
    -- is no placeholder), there are credentials, the login succeeded, and the session is ended after the
    -- write, whether the write succeeds or fails.
    pub apply_write-IsListed :
        (cfg : ActionsConfig) (p : WritePolicy) (credentialed : Bool) (a : ConsoleAction)
        (w : World) (k : Command)
        → new_write_policy to_lower cfg ≡ some p
        → (apply_write to_lower c p credentialed a w).executed ≡ some k
        → IsListed cfg k
          × (command_of a ≡ some k)
          × (credentialed ≡ true)
          × ((c.login w).0 ≡ none)
          × ((apply_write to_lower c p credentialed a w).world
              ≡ c.logout (c.execute k (c.login w).1).1)
    apply_write-IsListed cfg p credentialed a w k n e =
        let ran = apply_write-Executed p credentialed a w k e in
        (check_command-IsListed cfg p k n ran.2, ran.0, ran.1, ran.3, ran.4)
