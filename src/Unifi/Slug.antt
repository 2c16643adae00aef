-- ===== src/Unifi/Slug.antt =====
-- internal/providers/unifi/client.go: `slugify`, on a name as the sequence of its runes.
use unifi_reactor.Base.{
  ℕ, Bool, true, false, not, ◌&&◌, ◌||◌, [], ◌∷◌, ◌++◌, if◌then◌else◌, leb, ◌==◌, ◌+◌,
}
use unifi_reactor.Base.Text.{Text}

-- `unicode.IsSpace`
is_space : ℕ → Bool
is_space r =
    (leb 9 r && leb r 13)
    || r == 32
    || r == 133
    || r == 160
    || r == 5760
    || (leb 8192 r && leb r 8202)
    || r == 8232
    || r == 8233
    || r == 8239
    || r == 8287
    || r == 12288

trim_left : Text → Text
unfolding is_space
trim_left [] = []
trim_left (r ∷ s) = let rest = trim_left s in if is_space r then rest else r ∷ s

all_space : Text → Bool
unfolding is_space
all_space [] = true
all_space (r ∷ s) = is_space r && all_space s

trim_right : Text → Text
unfolding all_space
trim_right [] = []
trim_right (r ∷ s) = let rest = trim_right s in if all_space (r ∷ s) then [] else r ∷ rest

-- `strings.TrimSpace`
unfoldable pub trim_space : Text → Text
unfolding trim_left trim_right
trim_space s = trim_right (trim_left s)

-- `unicode.ToLower`, as far as `slugify` tells runes apart: the capitals of ASCII, and the two runes
-- outside ASCII whose lower case is in ASCII.
unfoldable pub lower_rune : ℕ → ℕ
lower_rune r =
    if leb 65 r && leb r 90 then r + 32 else if r == 304 then 105 else if r == 8490 then 107 else r

-- A lower-case letter or a digit of ASCII.
unfoldable pub is_slug_rune : ℕ → Bool
is_slug_rune r = (leb 97 r && leb r 122) || (leb 48 r && leb r 57)

-- What is written for one rune that is kept.
unfoldable pub write_rune : Text → Bool → ℕ → Text
write_rune [] pending r = r ∷ []
write_rune (b ∷ out) pending r = (b ∷ out) ++ (if pending then 45 ∷ r ∷ [] else r ∷ [])

-- The loop, with what is written so far and whether a hyphen is pending.
unfoldable pub slug_loop : Text → Bool → Text → Text
slug_loop out pending [] = out
slug_loop out pending (r ∷ s) =
    slug_loop (if is_slug_rune r then write_rune out pending r else out) (not (is_slug_rune r)) s

unfoldable pub lower_all : Text → Text
lower_all [] = []
lower_all (r ∷ s) = lower_rune r ∷ lower_all s

-- `slugify`
unfoldable pub slugify : Text → Text
slugify name = slug_loop [] false (lower_all (trim_space name))
