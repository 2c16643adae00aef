-- ===== src/Adopt/Written.antt =====
-- internal/adopt/crd.go: when the definition is written to, and with what.
use unifi_reactor.Base.{
  ◌≡◌, refl, ◌⊎◌, inl, inr, [], if◌then◌else◌, some, arith, Bool-cases, Option-cases, ◌&&◌,
}
use unifi_reactor.Base.Text.{Text, same, same→eq}
use unifi_reactor.Base.Dict.{Dict, get_or, lookup}
use unifi_reactor.Adopt.{
  AdoptError, Document, Fetched, options_missing, other_release, unmarshalled, patch_refused,
  unreadable, adopt_fetched, Options, Server, Result, adopt_live, adoption_patch, chart_annotations,
  crd, failed, is_incomplete, live, not_found, ok, release_name_annotation,
  release_namespace_annotation, send_patch, unread,
}
use unifi_reactor.Adopt.Owned.{IsOwned, Result-cases, adoption_patch-IsOwned}

module _ {W : Type 0} (x : Server W) (w : W) (opts : Options) where
  -- The definition has no owner.
  unfoldable pub IsFree : Type 0
  IsFree =
      (annotations : Dict Text) × (x.fetch w opts.name ≡ live annotations)
      × (get_or [] (lookup release_name_annotation annotations) ≡ [])

  -- The definition belongs to the release of the options, in their namespace.
  unfoldable pub IsOurs : Type 0
  IsOurs =
      (annotations : Dict Text) × (x.fetch w opts.name ≡ live annotations)
      × (get_or [] (lookup release_name_annotation annotations) ≡ opts.release)
      × (get_or [] (lookup release_namespace_annotation annotations) ≡ opts.namespace)

  -- One patch is sent, which names the release and its namespace, and its answer is the result.
  unfoldable pub IsPatched : W × Result {0} Unit → Type 0
  IsPatched r =
      (patch : Document) × (raw : Text) × IsOwned opts (chart_annotations patch)
      × (x.marshal patch ≡ some raw)
      × (r.0 ≡ (x.patch w opts.name raw).0)
      × (r.1 ≡ (if (x.patch w opts.name raw).1 then ok tt else failed patch_refused))

  -- Nothing is written, and the result is an error.
  unfoldable pub IsDeclined : W × Result {0} Unit → Type 0
  IsDeclined r = (r.0 ≡ w) × (e : AdoptError) × (r.1 ≡ failed e)

  -- Nothing is written, since there is nothing to adopt.
  unfoldable pub IsIdle : W × Result {0} Unit → Type 0
  IsIdle r = (r.0 ≡ w) × (r.1 ≡ ok tt) × ((x.fetch w opts.name ≡ not_found) ⊎ IsOurs)

  unfoldable pub IsAdoption : W × Result {0} Unit → Type 0
  IsAdoption r = IsDeclined r ⊎ (IsIdle r ⊎ (IsFree × IsPatched r))

  send_patch-IsPatched :
      (patch : Document)
      → adoption_patch x opts ≡ ok patch
      → IsDeclined (send_patch x w opts patch) ⊎ IsPatched (send_patch x w opts patch)
  unfolding send_patch IsPatched IsDeclined
  send_patch-IsPatched patch h = elim (Option-cases (x.marshal patch)) [
    | inl e ↦ inl (ground arith, unmarshalled, ground arith)
    | inr (raw, e) ↦
        inr (patch, raw, adoption_patch-IsOwned x opts patch h, e, ground arith, ground arith)
  ]

  adopt_live-IsAdoption :
      (annotations : Dict Text)
      → x.fetch w opts.name ≡ live annotations
      → IsAdoption (adopt_live x w opts annotations)
  unfolding adopt_live IsAdoption IsFree IsOurs IsIdle
  adopt_live-IsAdoption annotations fetched =
      let owner = get_or [] (lookup release_name_annotation annotations) in
      let namespace = get_or [] (lookup release_namespace_annotation annotations) in
      elim (Bool-cases (same owner [])) [
        | inr e ↦ elim (Bool-cases (same owner opts.release && same namespace opts.namespace)) [
          | inl k ↦ inr (
              inl (
                ground arith,
                ground arith,
                inr (
                  annotations,
                  fetched,
                  ground (arith, same→eq owner opts.release),
                  ground (arith, same→eq namespace opts.namespace),
                ),
              ))
          | inr k ↦
              inl (rw e (rw k (unfold IsDeclined in (refl, other_release owner namespace, refl))))
        ]
        | inl e ↦ elim (Result-cases (adoption_patch x opts)) [
          | inr (fault, k) ↦ inl (unfold IsDeclined in (ground arith, fault, ground arith))
          | inl (patch, k) ↦ rw e (
              rw k (elim (send_patch-IsPatched patch k) [
                | inl declined ↦ inl declined
                | inr patched ↦ inr (inr ((annotations, fetched, same→eq owner [] e), patched))
              ]))
        ]
      ]

  fetched-IsAdoption :
      (fetched : Fetched)
      → x.fetch w opts.name ≡ fetched
      → IsAdoption (adopt_fetched x w opts fetched)
  unfolding adopt_fetched IsAdoption IsDeclined IsIdle
  fetched-IsAdoption not_found e = inr (inl (refl, refl, inl e))
  fetched-IsAdoption unread e = inl (refl, unreadable, refl)
  fetched-IsAdoption (live annotations) e = adopt_live-IsAdoption annotations e

  -- The call ends in one of three ways. It writes nothing and fails; or it writes nothing and
  -- succeeds, and there is no definition or it belongs to this release already; or no release owns
  -- the definition, and the result is the answer to one patch, which names the release and its
  -- namespace whatever the manifest of the chart says.
  pub crd-IsAdoption : IsAdoption (crd x w opts)
  unfolding crd IsAdoption IsDeclined
  crd-IsAdoption = elim (Bool-cases (is_incomplete opts)) [
    | inl k ↦ rw k (inl (refl, options_missing, refl))
    | inr k ↦ rw k (fetched-IsAdoption (x.fetch w opts.name) refl)
  ]
