-- ===== src/Controller/Cluster/Quiet.antt =====
-- An API server that accepts every call that it documents and on which nobody else writes, and what
-- `apply` of internal/controller/targets.go leaves on it.
use unifi_reactor.Base.{
  ◌<◌, Bool, true, false, not, ◌&&◌, ◌||◌, none, if◌then◌else◌, ◌≡◌, ◌⊎◌, inl, inr, refl, sym, ap,
  ◌∙◌, subst, arith, Bool-cases,
}
use unifi_reactor.Base.Text.{Text, same_refl}
use unifi_reactor.Base.Int.{ℤ, pos, negsuc, same_ℤ, same_ℤ→eq}
use unifi_reactor.Base.Dict.{Dict, insert, lookup-insert}
use unifi_reactor.Controller.Handlers.{Shape, replica, switch, level_set, level_of_flag}
use unifi_reactor.Controller.Claims.{TargetKey}
use unifi_reactor.Controller.Cluster.{
  Cluster, Done, Error, flag, Object, Replicas, Result, ok, err, count, unset_replicas,
  mistyped_replicas, apply, map_error, nested_bool, read, read_flag, read_replicas, replicas_or,
  scale_of, write_flag, write_replicas,
}

-- A scale of `n` replicas. The field of autoscaling/v1 is left out at 0.
abbrev pub Shows : ℤ → Replicas → Type 0
Shows n (count m) = m ≡ n
Shows n unset_replicas = n ≡ pos 0
Shows n mistyped_replicas = ⊥

-- A count of replicas that a Scale can have: an int32 that is not negative.
abbrev pub IsReplicas : ℤ → Type 0
IsReplicas (pos n) = n < 2147483648
IsReplicas (negsuc n) = ⊥

-- A level to which a target of this shape can be brought.
abbrev pub Attainable : Shape → ℤ → Type 0
Attainable replica level = IsReplicas level
Attainable (switch field set clear) level = Unit

-- What the API server documents of calls that succeed: a merge patch of an object that is as it was
-- read stores the object with the changes, and only a target with a scale subresource is scaled. What
-- `Object` keeps of an object, its annotations and its switches, is no part of its scale.
pub record Quiet (c : Cluster) : Type 0 where
  pub patch_accepted :
      (guard : Bool) (before after : Object) (w : c.World)
      → c.get_object before.key w ≡ ok before
      → after.key ≡ before.key
      → (c.patch_object guard before after w).0 ≡ ok after
  pub patch_stored :
      (guard : Bool) (before after : Object) (w : c.World)
      → c.get_object before.key w ≡ ok before
      → after.key ≡ before.key
      → c.get_object before.key ((c.patch_object guard before after w).1) ≡ ok after
  pub patch_keeps_scale :
      (guard : Bool) (before after : Object) (w : c.World) (k : TargetKey)
      → c.get_scale k ((c.patch_object guard before after w).1) ≡ c.get_scale k w
  pub update_accepted :
      (k : TargetKey) (n : ℤ) (w : c.World) (r : Replicas)
      → IsReplicas n
      → c.get_scale k w ≡ ok r
      → (c.update_scale k n w).0 ≡ none
  pub update_stored :
      (k : TargetKey) (n : ℤ) (w : c.World) (r : Replicas)
      → IsReplicas n
      → c.get_scale k w ≡ ok r
      → (s : Replicas) × (c.get_scale k ((c.update_scale k n w).1) ≡ ok s) × Shows n s
  pub update_keeps_object :
      (k : TargetKey) (n : ℤ) (w : c.World)
      → c.get_object k ((c.update_scale k n w).1) ≡ c.get_object k w

-- The API server holds the target at the level: its scale has so many replicas, or its switch is set
-- exactly if the level is the set one.
abbrev pub At : (c : Cluster) → Shape → TargetKey → ℤ → c.World → Type 0
At c replica k level w = (s : Replicas) × (c.get_scale k w ≡ ok s) × Shows level s
At c (switch field set clear) k level w =
    (o : Object) × (c.get_object k w ≡ ok o) × (nested_bool field o ≡ ok (same_ℤ level level_set))

-- The API server holds the object as it is.
abbrev pub Stored : (c : Cluster) → Object → c.World → Type 0
Stored c obj w = c.get_object obj.key w ≡ ok obj

-- The write has no error, the API server holds the target at the level and the object that is left
-- in memory, and the key and the annotations are kept.
abbrev pub Applied : (c : Cluster) → Shape → Object → ℤ → Done c.World → Type 0
Applied c shape obj level d =
    (d.error ≡ none)
    × At c shape obj.key level d.world
    × (c.get_object obj.key d.world ≡ ok d.target)
    × (d.target.annotations ≡ obj.annotations)
    × (d.target.key ≡ obj.key)

pub Result-cases :
    {A : Type 0} (r : Result A) → ((a : A) × (r ≡ ok a)) ⊎ ((e : Error) × (r ≡ err e))
Result-cases (ok a) = inl (a, refl)
Result-cases (err e) = inr (e, refl)

ok_inj : {A : Type 0} {a b : A} → ok a ≡ ok b → a ≡ b
ok_inj e = cc e

-- A scale whose replicas are read as the level, where an absent field is 0, has so many replicas.
replicas_or-Shows :
    (s : Replicas) (n level : ℤ)
    → replicas_or (pos 0) s ≡ ok n
    → same_ℤ n level ≡ true
    → Shows level s
unfolding replicas_or
replicas_or-Shows (count m) n level e h = ok_inj e ∙ same_ℤ→eq n level h
replicas_or-Shows unset_replicas n level e h = sym (ok_inj e ∙ same_ℤ→eq n level h)
replicas_or-Shows mistyped_replicas n level e h = ground arith

-- A replica target that can be read has a scale, and `apply` can read it too.
read-scale :
    (c : Cluster) (obj : Object) (v : ℤ) (w : c.World)
    → read c replica obj w ≡ ok v
    → (s : Replicas) × (n : ℤ) × (c.get_scale obj.key w ≡ ok s) × (replicas_or (pos 0) s ≡ ok n)
unfolding read read_replicas scale_of map_error replicas_or
read-scale c obj v w h = elim (Result-cases (c.get_scale obj.key w)) [
  | inr (e, x) ↦ absurd (ground (arith, h, x))
  | inl (count m, x) ↦ (count m, m, x, refl)
  | inl (unset_replicas, x) ↦ (unset_replicas, pos 0, x, refl)
  | inl (mistyped_replicas, x) ↦ absurd (ground (arith, h, x))
]

apply_replica :
    (c : Cluster) (q : Quiet c) (obj : Object) (level v : ℤ) (w : c.World)
    → Stored c obj w
    → read c replica obj w ≡ ok v
    → IsReplicas level
    → Applied c replica obj level (apply c replica obj level w)
unfolding apply read_replicas scale_of map_error write_replicas
apply_replica c q obj level v w st h i =
    let (s, n, e, x) = read-scale c obj v w h in
    elim (Bool-cases (same_ℤ n level)) [
      | inl y ↦
          rw (e, x, y, if◌then◌else◌)
            (refl, (s, e, replicas_or-Shows s n level x y), st, refl, refl)
      | inr y ↦
          rw (e, x, y, if◌then◌else◌, write_replicas, q.update_accepted obj.key level w s i e)
            (
              refl,
              q.update_stored obj.key level w s i e,
              q.update_keeps_object obj.key level w ∙ st,
              refl,
              refl,
            )
    ]

nested_bool-insert :
    (field : Text) (b : Bool) (obj : Object)
    → nested_bool field (record obj { spec = insert field (flag b) obj.spec }) ≡ ok b
unfolding nested_bool
nested_bool-insert field b obj =
    rw (nested_bool, lookup-insert field field (flag b) obj.spec, same_refl field, if◌then◌else◌)
      refl

same_flags : (a b : Bool) → (a && b || not (a || b)) ≡ true → a ≡ b
same_flags a b h = ground arith

apply_switch :
    (c : Cluster) (q : Quiet c) (field set clear : Text) (obj : Object) (level v : ℤ) (w : c.World)
    → Stored c obj w
    → read c (switch field set clear) obj w ≡ ok v
    → Applied c (switch field set clear) obj level (apply c (switch field set clear) obj level w)
unfolding apply read read_flag map_error write_flag
apply_switch c q field set clear obj level v w st h =
    let no_read : (e : Error) → nested_bool field obj ≡ err e → ⊥ = λ e x. ground (arith, h, x) in
    let want = same_ℤ level level_set in
    let after = record obj { spec = insert field (flag want) obj.spec } in
    let stored = q.patch_stored false obj after w st refl in
    elim (Result-cases (nested_bool field obj)) [
      | inr (e, x) ↦ absurd (no_read e x)
      | inl (b, x) ↦ elim (Bool-cases (b && want || not (b || want))) [
        | inl y ↦
            rw (x, y, if◌then◌else◌)
              (refl, (obj, st, x ∙ ap (λ t. ok t) (same_flags b want y)), st, refl, refl)
        | inr y ↦
            rw (x, y, if◌then◌else◌, write_flag, q.patch_accepted false obj after w st refl)
              (refl, (after, stored, nested_bool-insert field want obj), stored, refl, refl)
      ]
    ]

-- For a target in memory that the API server holds and that can be read, a level that is a count of
-- replicas where the target has them, and a server that accepts every call: `apply` has no error, the API server then holds the target at the applied level and
-- holds the object that is left in memory, and the key and the annotations are kept.
pub apply_lem :
    (c : Cluster) (q : Quiet c) (shape : Shape) (obj : Object) (level v : ℤ) (w : c.World)
    → Stored c obj w
    → read c shape obj w ≡ ok v
    → Attainable shape level
    → Applied c shape obj level (apply c shape obj level w)
apply_lem c q replica obj level v w st h i = apply_replica c q obj level v w st h i
apply_lem c q (switch field set clear) obj level v w st h i =
    apply_switch c q field set clear obj level v w st h

-- A target that is held at a level can be read.
pub At-read :
    (c : Cluster) (shape : Shape) (obj : Object) (level : ℤ) (w : c.World)
    → c.get_object obj.key w ≡ ok obj
    → At c shape obj.key level w
    → (v : ℤ) × (read c shape obj w ≡ ok v)
unfolding read read_replicas read_flag scale_of map_error replicas_or
At-read c replica obj level w st (count m, e, x) = (m, rw e refl)
At-read c replica obj level w st (unset_replicas, e, x) = (pos 1, rw e refl)
At-read c replica obj level w st (mistyped_replicas, e, x) = absurd x
At-read c (switch field set clear) obj level w st (o, e, x) =
    let same_object : o ≡ obj = ok_inj (sym e ∙ st) in
    (
      level_of_flag (same_ℤ level level_set),
      rw (subst (λ y. nested_bool field y ≡ ok (same_ℤ level level_set)) same_object x) refl,
    )

module _ (c : Cluster) (q : Quiet c) (obj : Object) (next : Dict Text) (guard : Bool) (w : c.World)
    (st : Stored c obj w) where
  abbrev pub renoted : Object
  renoted = record obj { annotations = next }

  -- A patch of the annotations changes nothing that `read` looks at.
  pub read_annotations :
      (shape : Shape)
      → read c shape renoted ((c.patch_object guard obj renoted w).1) ≡ read c shape obj w
  unfolding read read_replicas read_flag scale_of nested_bool
  read_annotations replica = rw (q.patch_keeps_scale guard obj renoted w obj.key) refl
  read_annotations (switch field set clear) = refl

  -- Nor does it change the level.
  pub annotations-At :
      (shape : Shape) (level : ℤ)
      → At c shape obj.key level w
      → At c shape obj.key level ((c.patch_object guard obj renoted w).1)
  unfolding nested_bool
  annotations-At replica level (s, e, x) =
      (s, q.patch_keeps_scale guard obj renoted w obj.key ∙ e, x)
  annotations-At (switch field set clear) level (o, e, x) =
      let same_object : o ≡ obj = ok_inj (sym e ∙ st) in
      (
        renoted,
        q.patch_stored guard obj renoted w st refl,
        subst (λ y. nested_bool field y ≡ ok (same_ℤ level level_set)) same_object x,
      )
