-- ===== src/Engine/Arbiter.antt =====
-- internal/engine/arbiter.go: competing claims on one target resolve to the most restrictive level.
pub mod Meet
pub mod Verdict
use unifi_reactor.Base.{List, [], ◌∷◌, Option, none, some, if◌then◌else◌}
use unifi_reactor.Base.Text.{Text}
use unifi_reactor.Base.Int.{ℤ, min, same_ℤ}
use unifi_reactor.Base.Sort.{text_order, sort}

pub record Intent : Type 0 where
  pub claimant : Text
  pub level : ℤ

pub record Resolution : Type 0 where
  pub level : ℤ
  pub winners : List Text
  pub deferred : List Text

-- The first loop of `Resolve`: `level = min(level, intent.Level)`.
unfoldable pub lowest : ℤ → List Intent → ℤ
lowest level [] = level
lowest level (i ∷ intents) = lowest (min level i.level) intents

-- The second loop, which appends each claimant to one of two lists: those at the level,
unfoldable pub winners_at : ℤ → List Intent → List Text
winners_at level [] = []
winners_at level (i ∷ intents) =
    let rest = winners_at level intents in if same_ℤ i.level level then i.claimant ∷ rest else rest

-- and those that it passes over.
unfoldable pub deferred_at : ℤ → List Intent → List Text
deferred_at level [] = []
deferred_at level (i ∷ intents) =
    let rest = deferred_at level intents in if same_ℤ i.level level then rest else i.claimant ∷ rest

-- `Resolve`. `none` is its `ok = false`.
unfoldable pub resolve : List Intent → Option Resolution
resolve [] = none
resolve (i ∷ intents) =
    let level = lowest i.level intents in
    some (record {
      level = level;
      winners = sort (winners_at level (i ∷ intents));
      deferred = sort (deferred_at level (i ∷ intents));
    })
