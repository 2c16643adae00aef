-- ===== src/Controller/Holding/Annotations.antt =====
-- What the loops over a target's annotations do, and one patch of them.
use mathlib.Core.List.{Memᴰ}
use unifi_reactor.Base.{
  Bool, true, false, List, [], ◌∷◌, none, if◌then◌else◌, ◌≡◌, inl, inr, refl, sym, ap, ◌∙◌, arith,
  Bool-cases,
}
use unifi_reactor.Base.Text.{Text, same, same_refl}
use unifi_reactor.Base.Dict.{
  Dict, lookup, insert, delete, is_some, get_or, lookup-insert, lookup-delete,
}
use unifi_reactor.Controller.Handlers.{Shape}
use unifi_reactor.Base.Int.{ℤ}
use unifi_reactor.Controller.Cluster.{Cluster, Done, Object, ok, read}
use unifi_reactor.Controller.Cluster.Quiet.{At, annotations-At, Quiet, Stored, read_annotations}
use unifi_reactor.Controller.Holding.{merge_annotations, strip_annotations, patch_annotations}

-- No entry is for `k`.
abbrev pub Avoids : Text → Dict Text → Type 0
Avoids k [] = Unit
Avoids k ((a, v) ∷ want) = (same a k ≡ false) × Avoids k want

-- Where a loop ends without a change, it did not change the annotations.
abbrev pub Clean : Dict Text → Bool → Dict Text × Bool → Type 0
Clean next dirty acc = acc.1 ≡ false → (acc.0 ≡ next) × (dirty ≡ false)

pub merge_annotations-Clean :
    (current want next : Dict Text) (dirty : Bool)
    → Clean next dirty (merge_annotations current want (next, dirty))
unfolding merge_annotations
merge_annotations-Clean current [] next dirty h = (refl, h)
merge_annotations-Clean current ((a, v) ∷ want) next dirty h =
    elim (same (get_or [] (lookup a current)) v)
        as (λ b.
          Clean next dirty (
            merge_annotations current want
              (if b then (next, dirty) else (insert a v next, true)))) [
                | true ↦ λ h. merge_annotations-Clean current want next dirty h
                | false ↦ λ h.
                    let ih = merge_annotations-Clean current want (insert a v next) true h in
                    ground (arith, ih.1)
              ]
      h

pub lookup-merge_annotations :
    (k : Text) (current want : Dict Text) (acc : Dict Text × Bool)
    → Avoids k want
    → lookup k (merge_annotations current want acc).0 ≡ lookup k acc.0
unfolding merge_annotations
lookup-merge_annotations k current [] acc h = refl
lookup-merge_annotations k current ((a, v) ∷ want) (next, dirty) h =
    lookup-merge_annotations k current want _ h.1
    ∙ elim (Bool-cases (same (get_or [] (lookup a current)) v)) [
      | inl e ↦ rw (e, if◌then◌else◌) refl
      | inr e ↦ rw (e, if◌then◌else◌, lookup-insert a k v next, h.0, if◌then◌else◌) refl
    ]

pub strip_annotations-Clean :
    (l : List Text) (next : Dict Text) (dirty : Bool)
    → Clean next dirty (strip_annotations l (next, dirty))
unfolding strip_annotations
strip_annotations-Clean [] next dirty h = (refl, h)
strip_annotations-Clean (a ∷ l) next dirty h =
    elim (is_some (lookup a next))
        as (λ b.
          Clean next dirty
            (strip_annotations l (if b then (delete a next, true) else (next, dirty)))) [
              | true ↦ λ h.
                  let ih = strip_annotations-Clean l (delete a next) true h in ground (arith, ih.1)
              | false ↦ λ h. strip_annotations-Clean l next dirty h
            ]
      h

strip_step_absent :
    (k a : Text) (next : Dict Text) (dirty : Bool)
    → lookup k next ≡ none
    → lookup k
        (if◌then◌else◌ {A = Dict Text × Bool}
          (is_some (lookup a next))
          (delete a next, true)
          (next, dirty)).0
      ≡ none
strip_step_absent k a next dirty h = ground (arith, lookup-delete a k next)

strip_step :
    (k : Text) (next : Dict Text) (dirty : Bool)
    → lookup k
        (if◌then◌else◌ {A = Dict Text × Bool}
          (is_some (lookup k next))
          (delete k next, true)
          (next, dirty)).0
      ≡ none
strip_step k next dirty = ground (arith, lookup-delete k k next, same_refl k)

-- A key that is absent stays absent, and a key of the list is absent in the end.
pub strip_absent :
    (k : Text) (l : List Text) (acc : Dict Text × Bool)
    → lookup k acc.0 ≡ none
    → lookup k (strip_annotations l acc).0 ≡ none
unfolding strip_annotations
strip_absent k [] acc h = h
strip_absent k (a ∷ l) (next, dirty) h = strip_absent k l _ (strip_step_absent k a next dirty h)

pub strip_mem :
    (k : Text) (l : List Text) (acc : Dict Text × Bool)
    → Memᴰ k l
    → lookup k (strip_annotations l acc).0 ≡ none
unfolding strip_annotations
strip_mem k [] acc m = elim m [ ]
strip_mem k (a ∷ l) (next, dirty) (Memᴰ.head e) =
    strip_absent k l _ (rw (sym e) (strip_step k next dirty))
strip_mem k (a ∷ l) (next, dirty) (Memᴰ.tail m) = strip_mem k l _ m

-- What a patch of the annotations leaves behind: no error, the object with them, in memory and on the
-- API server, and all that `read` finds, at the level at which the target was.
abbrev pub Patched : (c : Cluster) → Object → Dict Text → c.World → Done c.World → Type 0
Patched c target next w d =
    (d.error ≡ none)
    × (d.target ≡ record target { annotations = next })
    × (c.get_object d.target.key d.world ≡ ok d.target)
    × ((shape : Shape) → read c shape d.target d.world ≡ read c shape target w)
    × ((shape : Shape) (level : ℤ)
        → At c shape target.key level w
        → At c shape target.key level d.world)

pub patch_annotations_lem :
    (c : Cluster) (q : Quiet c) (target : Object) (next : Dict Text) (dirty guard : Bool)
    (w : c.World)
    → Stored c target w
    → (dirty ≡ false → next ≡ target.annotations)
    → Patched c target next w (patch_annotations c target (next, dirty) guard w)
unfolding patch_annotations
patch_annotations_lem c q target next true guard w st h =
    let after = record target { annotations = next } in
    rw (patch_annotations, q.patch_accepted guard target after w st refl)
      (
        refl,
        refl,
        q.patch_stored guard target after w st refl,
        read_annotations c q target next guard w st,
        annotations-At c q target next guard w st,
      )
patch_annotations_lem c q target next false guard w st h = (
  refl,
  ap (λ x. record target { annotations = x }) (sym (h refl)),
  st,
  λ shape. refl,
  λ shape level a. a,
)
