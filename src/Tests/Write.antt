-- ===== src/Tests/Write.antt =====
-- Writes on the console at concrete inputs: the outlet of one UPS is listed.
use unifi_reactor.Base.{ℕ, true, false, [], ◌∷◌, none, some, ◌≡◌, refl, ◌+◌}
use unifi_reactor.Base.Text.{Text, codes, same}
use unifi_reactor.Base.Int.{pos, ltb_ℤ, same_ℤ}
use unifi_reactor.Base.Decimal.{parse_int32, parse_nat}
use unifi_reactor.Unifi.Slug.{trim_space}
use unifi_reactor.Unifi.Outlets.{is_placeholder_outlet_name}
use unifi_reactor.Unifi.Write.{
  ActionsConfig, Command, Console, ConsoleAction, OutletRef, WritePolicy, allows_outlet,
  apply_write, check_command, command_of, cut, is_mac, is_policy_empty, new_write_policy,
  normalize_mac, parse_all, parse_outlet_parts, parse_outlet_ref, parse_port_ref, replace_rune,
  set_outlet_relay, write_in_session,
}
use unifi_reactor.Unifi.Write.Listed.{IsListed, apply_write-IsListed}

abbrev plain : Text → Text
plain t = t

abbrev lists : ActionsConfig
lists = record {
  allowed_wlans = [];
  allowed_poe_ports = [];
  allowed_outlets = codes " aa-bb-cc-00-11-22/5/nas" ∷ [];
  allow_battery_backed_outlets = false;
}

abbrev nas : OutletRef
nas = record { mac = codes "aa:bb:cc:00:11:22"; index = pos 5; name = codes "nas" }

abbrev lists_policy : WritePolicy
lists_policy = record { wlans = []; ports = []; outlets = nas ∷ []; battery_backed = false }

abbrev cut_nas : ConsoleAction
cut_nas = record {
  action_type = codes "unifi.outlet.cut";
  wlan = none;
  poe = none;
  outlet = some (codes "aa:bb:cc:00:11:22", pos 5, codes "nas");
}

abbrev nas_off : Command
nas_off = set_outlet_relay (codes "aa:bb:cc:00:11:22") (pos 5) (codes "nas") false

-- The world counts the calls, and each write fails.
abbrev stubborn : Console ℕ
stubborn = record {
  login = λ w. (none, w + 1);
  execute = λ k w. (some (codes "rejected"), w + 1);
  logout = λ w. w + 1;
}

lists_policy_run : new_write_policy plain lists ≡ some lists_policy
unfolding new_write_policy parse_all parse_port_ref parse_outlet_ref parse_outlet_parts cut
    trim_space normalize_mac replace_rune is_mac parse_int32 parse_nat ltb_ℤ same
    is_placeholder_outlet_name
lists_policy_run = refl

nas_off_run : (apply_write plain stubborn lists_policy true cut_nas 0).executed ≡ some nas_off
unfolding apply_write command_of same is_policy_empty check_command is_placeholder_outlet_name
    allows_outlet normalize_mac replace_rune trim_space same_ℤ write_in_session
nas_off_run = refl

apply_write-IsListed_example :
    IsListed plain lists nas_off
    × (command_of cut_nas ≡ some nas_off)
    × (true ≡ true)
    × ((stubborn.login 0).0 ≡ none)
    × ((apply_write plain stubborn lists_policy true cut_nas 0).world ≡ 3)
apply_write-IsListed_example =
    apply_write-IsListed plain stubborn lists lists_policy true cut_nas 0 nas_off lists_policy_run
      nas_off_run
