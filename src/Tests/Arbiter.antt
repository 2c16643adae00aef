-- ===== src/Tests/Arbiter.antt =====
-- internal/engine/arbiter.go at three claims on one Deployment.
use mathlib.Core.List.{Permᴰ}
use unifi_reactor.Base.{List, [], ◌∷◌, ◌++◌, map, some, ◌≡◌, refl}
use unifi_reactor.Base.Text.{codes, leb_text}
use unifi_reactor.Base.Int.{pos, min, same_ℤ, ltb_ℤ}
use unifi_reactor.Base.Sort.{text_order, sort_by}
use unifi_reactor.Engine.Arbiter.{Intent, Resolution, lowest, winners_at, deferred_at, resolve}
use unifi_reactor.Engine.Arbiter.Meet.{resolve-perm}
use unifi_reactor.Engine.Arbiter.Verdict.{resolve-permᴰ}

abbrev wan : Intent
wan = record { claimant = codes "media/wan"; level = pos 1 }

abbrev ups : Intent
ups = record { claimant = codes "media/ups"; level = pos 0 }

abbrev heat : Intent
heat = record { claimant = codes "lab/heat"; level = pos 0 }

abbrev claims : List Intent
claims = wan ∷ ups ∷ heat ∷ []

abbrev outcome : Resolution
outcome = record {
  level = pos 0;
  winners = codes "lab/heat" ∷ codes "media/ups" ∷ [];
  deferred = codes "media/wan" ∷ [];
}

resolves : resolve claims ≡ some outcome
unfolding resolve lowest winners_at deferred_at min ltb_ℤ same_ℤ sort_by leb_text
resolves = refl

resolve-perm_example : resolve (ups ∷ wan ∷ heat ∷ []) ≡ resolve claims
resolve-perm_example =
    resolve-perm (ups ∷ wan ∷ heat ∷ []) claims ∣ Permᴰ.swap {l = heat ∷ []} refl refl ∣₁

resolve-permᴰ_example : Permᴰ (outcome.winners ++ outcome.deferred) (map (λ i. i.claimant) claims)
resolve-permᴰ_example = resolve-permᴰ claims outcome resolves
