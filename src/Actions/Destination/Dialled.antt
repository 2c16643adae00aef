-- ===== src/Actions/Destination/Dialled.antt =====
-- The addresses that may be dialled, whatever the allowlist.
use unifi_reactor.Base.{false, List, [], none, some, ◌≡◌, inl, inr, arith, Option-cases}
use unifi_reactor.Base.Text.{Text}
use unifi_reactor.Actions.Destination.{
  Address, Net, Policy, control_address, parse_entries, parse_policy, parsed, rejected,
}
use unifi_reactor.Actions.Destination.Listed.{Parsed-cases}

-- None of the addresses that no notification target has.
abbrev pub IsOrdinary : Address → Type 0
IsOrdinary a =
    (a.is_loopback ≡ false)
    × (a.is_link_local_unicast ≡ false)
    × (a.is_link_local_multicast ≡ false)
    × (a.is_unspecified ≡ false)
    × (a.is_multicast ≡ false)
    × (a.is_interface_local_multicast ≡ false)

module _ (net : Net) where
  allow_loopback-parse_policy :
      (entries : List Text) (p : Policy)
      → parse_policy net entries ≡ parsed p
      → p.allow_loopback ≡ false
  unfolding parse_policy
  allow_loopback-parse_policy entries p e = elim (Parsed-cases (parse_entries net entries [])) [
    | inr (x, w) ↦
        let wrong : rejected x ≡ parsed p = rw (parse_policy, w) at e in absurd (ground arith)
    | inl (allowed, w) ↦
        let made : parsed (record { allowed = allowed; allow_loopback = false }) ≡ parsed p =
          rw (parse_policy, w) at e in
        ground arith
  ]

  -- Under a policy that is read from an allowlist, whatever its entries, an address is dialled only if it
  -- is parsed, and, once unmapped, is not loopback, link-local, unspecified or multicast.
  pub control_address-IsOrdinary :
      (entries : List Text) (p : Policy) (address : Text)
      → parse_policy net entries ≡ parsed p
      → control_address net p address ≡ none
      → (hp : Text × Text) × (a : Address) × (net.split_host_port address ≡ some hp)
        × (net.parse_addr hp.0 ≡ some a)
        × IsOrdinary (net.unmap a)
  unfolding control_address
  control_address-IsOrdinary entries p address e c =
      elim (Option-cases (net.split_host_port address)) [
        | inl k ↦ absurd (ground (arith, k))
        | inr (hp, k) ↦ elim (Option-cases (net.parse_addr hp.0)) [
          | inl l ↦ absurd (ground (arith, k, l))
          | inr (a, l) ↦
              let shut = allow_loopback-parse_policy entries p e in
              let dialled = rw (control_address, k, l, shut) at c in
              (
                hp,
                a,
                k,
                l,
                (
                  ground arith,
                  ground arith,
                  ground arith,
                  ground arith,
                  ground arith,
                  ground arith,
                ),
              )
        ]
      ]
