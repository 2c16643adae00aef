-- ===== src/Unifi/Write.antt =====
-- internal/providers/unifi/write.go: which object of the console an action may write, and `Apply` up to
-- the write itself, which is a parameter.
pub mod Listed
use unifi_reactor.Base.{
  ℕ, zero, suc, Bool, true, false, not, ◌&&◌, ◌||◌, List, [], ◌∷◌, ◌++◌, Option, none, some,
  if◌then◌else◌, ◌==◌, leb,
}
use unifi_reactor.Base.Text.{Text, codes, same}
use unifi_reactor.Base.Int.{ℤ, pos, ltb_ℤ, same_ℤ}
use unifi_reactor.Base.Decimal.{format_int, parse_int32}
use unifi_reactor.Unifi.Slug.{trim_space}
use unifi_reactor.Unifi.Outlets.{is_placeholder_outlet_name}

pub record ActionsConfig : Type 0 where
  pub allowed_wlans : List Text
  pub allowed_poe_ports : List Text
  pub allowed_outlets : List Text
  pub allow_battery_backed_outlets : Bool

pub record PortRef : Type 0 where
  pub mac : Text
  pub port : ℤ

pub record OutletRef : Type 0 where
  pub mac : Text
  pub index : ℤ
  pub name : Text

-- The maps to true, as the lists of their keys.
pub record WritePolicy : Type 0 where
  pub wlans : List Text
  pub ports : List PortRef
  pub outlets : List OutletRef
  pub battery_backed : Bool

-- An action with its blocks: the name of a network, a switch and a port, a UPS with an outlet.
pub record ConsoleAction : Type 0 where
  pub action_type : Text
  pub wlan : Option Text
  pub poe : Option (Text × ℤ)
  pub outlet : Option (Text × ℤ × Text)

-- What `dispatch` calls: `setWLANEnabled`, `cyclePoEPort` and `setOutletRelay`.
pub data Command : Type 0 where
  set_wlan_enabled : (name : Text) → (want : Bool) → Command
  cycle_poe_port : (device : Text) → (port : ℤ) → Command
  set_outlet_relay : (device : Text) → (index : ℤ) → (name : Text) → (want : Bool) → Command

-- The text before the first rune and the text after it, as `strings.Cut` gives them.
unfoldable pub cut : ℕ → Text → Option (Text × Text)
cut sep [] = none
cut sep (r ∷ s) =
    let rest = cut sep s in
    if r == sep
    then some ([], s)
    else elim rest as (λ x. Option (Text × Text)) [ none ↦ none | some (a, b) ↦ some (r ∷ a, b) ]

unfoldable pub replace_rune : ℕ → ℕ → Text → Text
replace_rune old new [] = []
replace_rune old new (r ∷ s) = (if r == old then new else r) ∷ replace_rune old new s

is_hex : ℕ → Bool
is_hex r = (leb 48 r && leb r 57) || (leb 97 r && leb r 102)

-- `(:[0-9a-f]{2}){n}$`
hex_pairs : ℕ → Text → Bool
unfolding is_hex
hex_pairs zero [] = true
hex_pairs zero (r ∷ s) = false
hex_pairs (suc n) (c ∷ a ∷ b ∷ s) = c == 58 && is_hex a && is_hex b && hex_pairs n s
hex_pairs (suc n) _ = false

-- `macPattern.MatchString`
unfoldable pub is_mac : Text → Bool
unfolding hex_pairs
is_mac s = hex_pairs 6 (58 ∷ s)

positive : Option ℤ → Option ℤ
positive none = none
positive (some n) = if ltb_ℤ n (pos 1) then none else some n

-- `WritePolicy.Empty`
unfoldable pub is_policy_empty : WritePolicy → Bool
is_policy_empty p = elim p.wlans [
  | n ∷ ns ↦ false
  | [] ↦ elim p.ports [ q ∷ qs ↦ false | [] ↦ elim p.outlets [ o ∷ os ↦ false | [] ↦ true ] ]
]

unfoldable pub allows_wlan : List Text → Text → Bool
allows_wlan [] name = false
allows_wlan (n ∷ ns) name = same n name || allows_wlan ns name

unfoldable pub allows_port : List PortRef → PortRef → Bool
allows_port [] ref = false
allows_port (q ∷ qs) ref = (same q.mac ref.mac && same_ℤ q.port ref.port) || allows_port qs ref

unfoldable pub allows_outlet : List OutletRef → OutletRef → Bool
allows_outlet [] ref = false
allows_outlet (o ∷ os) ref =
    (same o.mac ref.mac && same_ℤ o.index ref.index && same o.name ref.name) || allows_outlet os ref

abbrev pub is_wlan_action : Text → Bool
is_wlan_action t = same t (codes "unifi.wlan.enable") || same t (codes "unifi.wlan.disable")

abbrev pub is_outlet_action : Text → Bool
is_outlet_action t = same t (codes "unifi.outlet.cut") || same t (codes "unifi.outlet.restore")

-- The call of `dispatch`, with the block that it takes: `none` where the block or the executor is missing.
unfoldable pub command_of : ConsoleAction → Option Command
command_of a =
    if is_wlan_action a.action_type
    then elim a.wlan as (λ x. Option Command) [
      | none ↦ none
      | some name ↦ some (set_wlan_enabled name (same a.action_type (codes "unifi.wlan.enable")))
    ]
    else if same a.action_type (codes "unifi.poe.cycle")
    then elim a.poe as (λ x. Option Command) [
      | none ↦ none
      | some (device, port) ↦ some (cycle_poe_port device port)
    ]
    else if is_outlet_action a.action_type
    then elim a.outlet as (λ x. Option Command) [
      | none ↦ none
      | some (device, index, name) ↦
          some
            (set_outlet_relay device index name (same a.action_type (codes "unifi.outlet.restore")))
    ]
    else none

pub data WriteError : Type 0 where
  no_block console_disabled no_console_credentials : WriteError
  wlan_not_allowed port_not_allowed outlet_not_allowed placeholder_name : WriteError
  console_failed : Text → WriteError

-- The console: its errors are texts. `login` is `NewAlarmClient` and `Login`, and `execute` the write that
-- `dispatch` calls.
pub record Console (World : Type 0) : Type 0 where
  pub login : World → Option Text × World
  pub execute : Command → World → Option Text × World
  pub logout : World → World

-- What an `Apply` leaves: what it executed, its error, and the world. The origin in its result is
-- `describe_command`, and it always counts one attempt.
pub record Applied (World : Type 0) : Type 0 where
  pub executed : Option Command
  pub error : Option WriteError
  pub world : World

module _ (to_lower : Text → Text) where
  -- `NormalizeMAC`
  unfoldable pub normalize_mac : Text → Text
  normalize_mac mac = replace_rune 46 58 (replace_rune 45 58 (to_lower (trim_space mac)))

  -- `parsePortRef`: `none` is its error.
  unfoldable pub parse_port_ref : Text → Option PortRef
  unfolding positive
  parse_port_ref entry = elim (cut 47 (trim_space entry)) as (λ x. Option PortRef) [
    | none ↦ none
    | some (device, index) ↦
        if is_mac (normalize_mac device)
        then elim (positive (parse_int32 (trim_space index))) as (λ x. Option PortRef) [
          | none ↦ none
          | some port ↦ some (record { mac = normalize_mac device; port = port })
        ]
        else none
  ]

  -- The end of `parseOutletRef`, on its three parts.
  unfoldable pub parse_outlet_parts : Text → Text → Text → Option OutletRef
  unfolding positive
  parse_outlet_parts device index name =
      if is_mac (normalize_mac device)
      then elim (positive (parse_int32 (trim_space index))) as (λ x. Option OutletRef) [
        | none ↦ none
        | some n ↦
            if same (trim_space name) [] || is_placeholder_outlet_name (trim_space name)
            then none
            else some (record { mac = normalize_mac device; index = n; name = trim_space name })
      ]
      else none

  -- `parseOutletRef`
  unfoldable pub parse_outlet_ref : Text → Option OutletRef
  parse_outlet_ref entry = elim (cut 47 (trim_space entry)) as (λ x. Option OutletRef) [
    | none ↦ none
    | some (device, rest) ↦ elim (cut 47 rest) as (λ x. Option OutletRef) [
      | none ↦ none
      | some (index, name) ↦ parse_outlet_parts device index name
    ]
  ]

  unfoldable pub parse_all {ℓ} : {A : Type ℓ} → (Text → Option A) → List Text → Option (List A)
  parse_all parse [] = some []
  parse_all parse (entry ∷ entries) = elim (parse entry) [
    | none ↦ none
    | some a ↦ elim (parse_all parse entries) [ none ↦ none | some rest ↦ some (a ∷ rest) ]
  ]

  -- `NewWritePolicy`
  unfoldable pub new_write_policy : ActionsConfig → Option WritePolicy
  new_write_policy cfg =
      elim (parse_all parse_port_ref cfg.allowed_poe_ports) as (λ x. Option WritePolicy) [
        | none ↦ none
        | some ports ↦
            elim (parse_all parse_outlet_ref cfg.allowed_outlets) as (λ x. Option WritePolicy) [
              | none ↦ none
              | some outlets ↦ some (record {
                wlans = cfg.allowed_wlans;
                ports = ports;
                outlets = outlets;
                battery_backed = cfg.allow_battery_backed_outlets;
              })
            ]
      ]

  -- `Writer.check`: the error, if there is one.
  unfoldable pub check_command : WritePolicy → Command → Option WriteError
  check_command p (set_wlan_enabled name want) =
      if allows_wlan p.wlans name then none else some wlan_not_allowed
  check_command p (cycle_poe_port device port) =
      if allows_port p.ports (record { mac = normalize_mac device; port = port })
      then none
      else some port_not_allowed
  check_command p (set_outlet_relay device index name want) =
      if is_placeholder_outlet_name name
      then some placeholder_name
      else if allows_outlet p.outlets
          (record { mac = normalize_mac device; index = index; name = name })
      then none
      else some outlet_not_allowed

  -- `describeConsoleTarget`
  unfoldable pub describe_command : Command → Text
  describe_command (set_wlan_enabled name want) = codes "unifi/wlan/" ++ name
  describe_command (cycle_poe_port device port) =
      codes "unifi/port/" ++ normalize_mac device ++ codes "/" ++ format_int port
  describe_command (set_outlet_relay device index name want) =
      codes "unifi/outlet/" ++ normalize_mac device ++ codes "/" ++ format_int index

  module _ {World : Type 0} (c : Console World) where
    unfoldable pub refuse : WriteError → World → Applied World
    refuse e w = record { executed = none; error = some e; world = w }

    abbrev pub console_error : Option Text → Option WriteError
    console_error none = none
    console_error (some e) = some (console_failed e)

    -- The session of `Apply`: the login, the write, and the logout that is deferred.
    unfoldable pub write_in_session : Command → World → Applied World
    write_in_session k w =
        let (failed, entered) = c.login w in
        let (error, after) = c.execute k entered in
        elim failed as (λ x. Applied World) [
          | some e ↦ refuse (console_failed e) entered
          | none ↦ record { executed = some k; error = console_error error; world = c.logout after }
        ]

    -- `Writer.Apply`
    unfoldable pub apply_write : WritePolicy → Bool → ConsoleAction → World → Applied World
    apply_write p credentialed a w = elim (command_of a) as (λ x. Applied World) [
      | none ↦ refuse no_block w
      | some k ↦
          let checked : Applied World = elim (check_command p k) as (λ x. Applied World) [
            | some e ↦ refuse e w
            | none ↦ write_in_session k w
          ] in
          if is_policy_empty p
          then refuse console_disabled w
          else if not credentialed
          then refuse no_console_credentials w
          else checked
    ]
