-- ===== src/Controller/Handlers/Levels.antt =====
-- The levels that a handler produces, and the round trip of a baseline through its annotation.
use unifi_reactor.Base.{true, false, some, ◌≡◌, ◌⊎◌, arith}
use unifi_reactor.Base.Text.{Text}
use unifi_reactor.Base.Int.{ℤ, IsInt32, same_ℤ}
use unifi_reactor.Base.Decimal.{parse-format_int, parse_int32-IsInt32, parse-format_bool}
use unifi_reactor.Controller.Handlers.{
  Shape, replica, switch, level_set, level_clear, level_of_flag, format, parse,
}

-- The levels that a target of the shape can be read at: a replica count, or one of two positions.
abbrev pub IsLevel : Shape → ℤ → Type 0
IsLevel replica level = IsInt32 level
IsLevel (switch field set clear) level = (level ≡ level_set) ⊎ (level ≡ level_clear)

-- A baseline survives its annotation: a level of the target that is written to the annotation is
-- read back as that level.
pub parse-format : (s : Shape) (level : ℤ) → IsLevel s level → parse s (format s level) ≡ some level
unfolding parse format level_of_flag same_ℤ
parse-format replica level h = parse-format_int level h
parse-format (switch field set clear) level h =
    ground (arith, parse-format_bool true, parse-format_bool false)

-- Whatever is read back is a level of the target.
pub parse-IsLevel :
    (s : Shape) (raw : Text) (level : ℤ) → parse s raw ≡ some level → IsLevel s level
unfolding parse level_of_flag
parse-IsLevel replica raw level e = parse_int32-IsInt32 raw level e
parse-IsLevel (switch field set clear) raw level e = ground arith
