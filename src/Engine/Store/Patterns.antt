-- ===== src/Engine/Store/Patterns.antt =====
-- `samplesFor` and `patternSamples`: an entry that ends in `*` speaks for every key with that
-- prefix, and the longest prefix wins.
use mathlib.Core.List.{Memᴰ}
use unifi_reactor.Base.{
  true, [], ◌∷◌, none, some, ◌≡◌, refl, arith, inl, inr, ◌∙◌, ◌⊎◌, Bool-cases, Option-cases, ◌≤◌,
  subst,
}
use unifi_reactor.Base.Text.{Text, has_prefix, len, cut_suffix}
use unifi_reactor.Base.Int.{ℤ, pos, negsuc, ltb_ℤ, ◌≤ℤ◌}
use unifi_reactor.Base.Dict.{Dict, lookup}
use unifi_reactor.Base.Sort.{Memᴰ-cons}
use unifi_reactor.Engine.Store.{
  StateStore, samples_for, DebounceConfig, longest_pattern, better_pattern, pattern_samples,
}

-- The pattern matches `key` by the prefix that stands before its `*`.
pub record Matches (key pattern : Text) : Type 0 where
  pub prefix : Text
  pub cut : cut_suffix pattern b'*' ≡ some prefix
  pub starts : has_prefix key prefix ≡ true

-- An entry of `m` that matches `key`, and how long its prefix is.
pub record Entry (key : Text) (m : Dict ℤ) : Type 0 where
  pub pattern : Text
  pub samples : ℤ
  pub among : Memᴰ (pattern, samples) m
  pub fits : Matches key pattern

Entry-cons : {key : Text} {m : Dict ℤ} (e : Text × ℤ) → Entry key m → Entry key (e ∷ m)
Entry-cons e n = record {
  pattern = n.pattern;
  samples = n.samples;
  among = Memᴰ.tail n.among;
  fits = n.fits;
}

module _ (key : Text) where
  better-ge : (pattern : Text) (n : ℤ) (acc : ℤ × ℤ) → acc.0 ≤ℤ (better_pattern key pattern n acc).0
  unfolding better_pattern ltb_ℤ
  better-ge pattern n (b, s) = ground arith

  better-Matches :
      (pattern : Text) (n : ℤ) (acc : ℤ × ℤ) (f : Matches key pattern)
      → pos (len f.prefix) ≤ℤ (better_pattern key pattern n acc).0
  unfolding better_pattern ltb_ℤ
  better-Matches pattern n (b, s) f = ground (arith, f.cut, f.starts)

  better_cases :
      (pattern : Text) (n : ℤ) (acc : ℤ × ℤ)
      → (better_pattern key pattern n acc ≡ acc)
        ⊎ ((f : Matches key pattern) × (better_pattern key pattern n acc ≡ (pos (len f.prefix), n)))
  unfolding better_pattern
  better_cases pattern n (b, s) = elim (Option-cases (cut_suffix pattern b'*')) [
    | inl e ↦ inl (ground (arith, e))
    | inr (q, e) ↦ elim (Bool-cases (has_prefix key q)) [
      | inr k ↦ inl (ground (arith, e, k))
      | inl k ↦ elim (Bool-cases (ltb_ℤ b (pos (len q)))) [
        | inr l ↦ inl (ground (arith, e, k, l))
        | inl l ↦ inr (record { prefix = q; cut = e; starts = k }, ground (arith, e, k, l))
      ]
    ]
  ]

  longest-ge : (m : Dict ℤ) (acc : ℤ × ℤ) → acc.0 ≤ℤ (longest_pattern key m acc).0
  unfolding longest_pattern
  longest-ge [] acc = omega arith
  longest-ge ((pattern, n) ∷ m) acc =
      omega (arith, better-ge pattern n acc, longest-ge m (better_pattern key pattern n acc))

  -- No entry that matches has a longer prefix than the one chosen.
  longest-Entry :
      (m : Dict ℤ) (acc : ℤ × ℤ) (pattern : Text) (n : ℤ) (f : Matches key pattern)
      → Memᴰ (pattern, n) m
      → pos (len f.prefix) ≤ℤ (longest_pattern key m acc).0
  unfolding longest_pattern
  longest-Entry [] acc pattern n f i = elim i [ ]
  longest-Entry ((p, k) ∷ m) acc pattern n f i = elim (Memᴰ-cons i) [
    | inl e ↦
        let better = better-Matches pattern n acc f in
        subst
          (λ a. pos (len f.prefix) ≤ℤ (longest_pattern key m (better_pattern key a.0 a.1 acc)).0) e
          (omega (arith, better, longest-ge m (better_pattern key pattern n acc)))
    | inr j ↦ longest-Entry m (better_pattern key p k acc) pattern n f j
  ]

  -- The choice is the start, or an entry that matches.
  longest_cases :
      (m : Dict ℤ) (acc : ℤ × ℤ)
      → (longest_pattern key m acc ≡ acc)
        ⊎ ((c : Entry key m) × (longest_pattern key m acc ≡ (pos (len c.fits.prefix), c.samples)))
  unfolding longest_pattern Entry-cons
  longest_cases [] acc = inl refl
  longest_cases ((p, k) ∷ m) acc = elim (longest_cases m (better_pattern key p k acc)) [
    | inr (c, e) ↦ inr (Entry-cons (p, k) c, e)
    | inl e ↦ elim (better_cases p k acc) [
      | inl same ↦ inl (e ∙ same)
      | inr (f, new) ↦
          inr (record { pattern = p; samples = k; among = Memᴰ.head refl; fits = f }, e ∙ new)
    ]
  ]

-- What the patterns say of a key that one of them matches is the count of a matching entry whose prefix is the
-- longest; in particular there is one.
pub pattern_samples-longest :
    (d : DebounceConfig) (key pattern : Text) (n : ℤ) (f : Matches key pattern)
    → Memᴰ (pattern, n) d.per_key
    → (c : Entry key d.per_key) × (pattern_samples d key ≡ some c.samples)
      × (len f.prefix ≤ len c.fits.prefix)
unfolding pattern_samples ltb_ℤ
pattern_samples-longest d key pattern n f i =
    let start : ℤ × ℤ = (negsuc 0, pos 0) in
    let best = longest-Entry key d.per_key start pattern n f i in
    elim (longest_cases key d.per_key start) [
      | inl e ↦ absurd (omega (arith, rw e at best))
      | inr (c, e) ↦ (c, ground (arith, e), omega (arith, rw e at best))
    ]

-- For a key that has no entry of its own, and that an entry with a `*` matches: the number of samples
-- the store asks for is that of a matching entry whose prefix is the longest.
pub samples_for-longest :
    (s : StateStore) (provider key pattern : Text) (d : DebounceConfig) (n : ℤ)
    (f : Matches key pattern)
    → lookup provider s.debounce ≡ some d
    → lookup key d.per_key ≡ none
    → Memᴰ (pattern, n) d.per_key
    → (c : Entry key d.per_key) × (samples_for s provider key ≡ c.samples)
      × (len f.prefix ≤ len c.fits.prefix)
unfolding samples_for
samples_for-longest s provider key pattern d n f configured own i =
    let (c, e, longest) = pattern_samples-longest d key pattern n f i in
    (c, rw (samples_for, configured, own, e) refl, longest)

-- Where no entry matches, no pattern speaks for the key.
pub pattern_samples-none :
    (d : DebounceConfig) (key : Text) → ¬ Entry key d.per_key → pattern_samples d key ≡ none
unfolding pattern_samples ltb_ℤ
pattern_samples-none d key no_entry = elim (longest_cases key d.per_key (negsuc 0, pos 0)) [
  | inl e ↦ ground (arith, e)
  | inr (c, e) ↦ absurd (no_entry c)
]
