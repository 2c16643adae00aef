-- ===== src/Unifi/Outlets.antt =====
-- outlets.go: the keys of the outlets of one UPS. The relay groups, which only log lines report, are
-- left out.
use unifi_reactor.Base.{
  ℕ, Bool, true, false, ◌&&◌, ◌||◌, List, [], ◌∷◌, ◌++◌, Option, none, some, if◌then◌else◌, ◌==◌,
  leb,
}
use unifi_reactor.Base.Text.{Text, codes}
use unifi_reactor.Base.Int.{ℤ}
use unifi_reactor.Base.Decimal.{format_int}
use unifi_reactor.Base.Dict.{Dict}
use unifi_reactor.Unifi.Vocabulary.{state_key_outlet_prefix, value_off, value_on}
use unifi_reactor.Unifi.Slug.{slugify}
use unifi_reactor.Unifi.Device.{OutletRecord}
use unifi_reactor.Unifi.Fleet.{publish_values, put_value}

skip_spaces : Text → Text
skip_spaces [] = []
skip_spaces (r ∷ s) = let rest = skip_spaces s in if r == 32 then rest else r ∷ s

-- ` *$`
only_spaces : Text → Bool
only_spaces [] = true
only_spaces (r ∷ s) = r == 32 && only_spaces s

is_digit : ℕ → Bool
is_digit r = leb 48 r && leb r 57

-- `[0-9]* *$`
digits_then_spaces : Text → Bool
unfolding only_spaces is_digit
digits_then_spaces [] = true
digits_then_spaces (r ∷ s) =
    let rest = digits_then_spaces s in if is_digit r then rest else only_spaces (r ∷ s)

-- `[0-9]+ *$`
number_then_spaces : Text → Bool
unfolding digits_then_spaces is_digit
number_then_spaces [] = false
number_then_spaces (r ∷ s) = is_digit r && digits_then_spaces s

is_separator : ℕ → Bool
is_separator r = r == 32 || r == 95 || r == 45

-- `[ _-]*[0-9]+ *$`
separators_then_number : Text → Bool
unfolding number_then_spaces is_separator
separators_then_number [] = false
separators_then_number (r ∷ s) =
    let rest = separators_then_number s in
    if is_separator r then rest else number_then_spaces (r ∷ s)

-- `[ _-]+[0-9]+ *$`
separated_number : Text → Bool
unfolding separators_then_number is_separator
separated_number [] = false
separated_number (r ∷ s) = is_separator r && separators_then_number s

after_word : Text → Text → Option Text
after_word [] s = some s
after_word (c ∷ word) [] = none
after_word (c ∷ word) (r ∷ s) = let rest = after_word word s in if c == r then rest else none

starts_outlet : Text → Option Text
unfolding after_word
starts_outlet [] = none
starts_outlet (r ∷ s) =
    let rest = after_word (codes "utlet") s in if r == 79 || r == 111 then rest else none

-- `isPlaceholderOutletName`: the regular expression `^ *[Oo]utlet[ _-]+[0-9]+ *$`, whose parts cannot
-- overlap, so that taking each as long as it goes decides it.
unfoldable pub is_placeholder_outlet_name : Text → Bool
unfolding skip_spaces starts_outlet separated_number
is_placeholder_outlet_name name = elim (starts_outlet (skip_spaces name)) [
  | none ↦ false
  | some rest ↦ separated_number rest
]

index_suffix : Option ℤ → Option Text
index_suffix none = none
index_suffix (some n) = some (format_int n)

slug_or : Option Text → Bool → Text → Option Text
slug_or default placeholder [] = default
slug_or default placeholder (r ∷ s) = if placeholder then default else some (r ∷ s)

-- `outletSuffix`
unfoldable pub outlet_suffix : Option ℤ → Text → Option Text
unfolding slug_or index_suffix
outlet_suffix index name =
    slug_or (index_suffix index) (is_placeholder_outlet_name name) (slugify name)

unfoldable pub put_outlet : OutletRecord → Dict Text × List Text → Dict Text × List Text
put_outlet o acc = elim (outlet_suffix o.index o.name) [
  | none ↦ acc
  | some suffix ↦ elim o.relay_state [
    | none ↦ acc
    | some closed ↦
        put_value (state_key_outlet_prefix ++ suffix) (if closed then value_on else value_off) acc
  ]
]

-- The loop of `outletTally.observe`: the values, and the keys that are shared.
unfoldable pub put_outlets : List OutletRecord → Dict Text × List Text → Dict Text × List Text
unfolding put_outlet
put_outlets [] acc = acc
put_outlets (o ∷ outlets) acc = put_outlets outlets (put_outlet o acc)

-- `outletTally`: `none` before a device with an outlet table is taken.
abbrev pub OutletTally : Type 0
OutletTally = Option (Dict Text × List Text)

-- `outletTally.observe`, on the outlet table of a device
unfoldable pub observe_outlets : List OutletRecord → OutletTally → OutletTally
observe_outlets outlets (some acc) = some acc
observe_outlets [] none = none
observe_outlets (o ∷ outlets) none = some (put_outlets (o ∷ outlets) ([], []))

-- `outletTally.publish`
unfoldable pub publish_outlets : OutletTally → Dict Text → Dict Text
publish_outlets none state = state
publish_outlets (some (values, shared)) state = publish_values shared values state
