-- ===== src/Unifi/Wan.antt =====
-- client.go: which uplink a gateway is using. The cross checks, which only report, are left out.
use unifi_reactor.Base.{Bool, not, ◌&&◌, ◌||◌, List, [], ◌∷◌, Option, none, some, if◌then◌else◌}
use unifi_reactor.Base.Text.{Text, same}
use unifi_reactor.Base.Int.{ℤ, pos, same_ℤ}
use unifi_reactor.Unifi.Vocabulary.{isp_unknown, value_backup, value_primary}
use unifi_reactor.Unifi.Slug.{slugify}
use unifi_reactor.Unifi.Device.{WanEntry}

-- `wanPrimaryIndex`
abbrev pub wan_primary_index : ℤ
wan_primary_index = pos 1

-- `wanSignal`: silent, ambiguous, or the index that the answer collapsed from.
pub data WanSignal : Type 0 where
  silent ambiguous : WanSignal
  answer : ℤ → WanSignal

-- The value of an answer.
abbrev pub wan_value : ℤ → Text
wan_value index = if same_ℤ index wan_primary_index then value_primary else value_backup

-- `resolveSignal`
unfoldable pub resolve_signal : List ℤ → WanSignal
resolve_signal [] = silent
resolve_signal (index ∷ []) = answer index
resolve_signal (index ∷ other ∷ claims) = ambiguous

unfoldable pub uplink_claims : List WanEntry → List ℤ
uplink_claims [] = []
uplink_claims (w ∷ wans) =
    let rest = uplink_claims wans in if w.is_uplink then w.index ∷ rest else rest

-- `byIsUplink`
unfoldable pub by_is_uplink : List WanEntry → WanSignal
by_is_uplink wans = resolve_signal (uplink_claims wans)

-- `wanPort.named`
unfoldable pub named : Text → WanEntry → Bool
named name w = not (same name []) && (same w.if_name name || same w.port_name name)

unfoldable pub named_claims : Text → List WanEntry → List ℤ
named_claims name [] = []
named_claims name (w ∷ wans) =
    let rest = named_claims name wans in if named name w then w.index ∷ rest else rest

-- `byUplinkName`
unfoldable pub by_uplink_name : Option Text → List WanEntry → WanSignal
by_uplink_name none wans = silent
by_uplink_name (some name) wans = resolve_signal (named_claims name wans)

-- The switch of `wanFrom` on the answer by is_uplink and the one by name: where both answer, also
-- differently, is_uplink is trusted.
unfoldable pub choose_signal : WanSignal → WanSignal → Text × ℤ
choose_signal (answer index) by_name = (wan_value index, index)
choose_signal silent (answer index) = (wan_value index, index)
choose_signal ambiguous (answer index) = (wan_value index, index)
choose_signal ambiguous silent = (value_backup, pos 0)
choose_signal ambiguous ambiguous = (value_backup, pos 0)
choose_signal silent silent = ([], pos 0)
choose_signal silent ambiguous = ([], pos 0)

-- `wanFrom`: the value and the index of the uplink, 0 where the value is a guess or nothing is
-- published.
unfoldable pub wan_from : List WanEntry → Option Text → Text × ℤ
wan_from wans uplink = choose_signal (by_is_uplink wans) (by_uplink_name uplink wans)

unfoldable pub or_unknown : Text → Text
or_unknown [] = isp_unknown
or_unknown (r ∷ s) = r ∷ s

-- `ispFrom`
unfoldable pub isp_from : Text → Text
unfolding or_unknown
isp_from isp = or_unknown (slugify isp)
