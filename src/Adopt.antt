-- ===== src/Adopt.antt =====
-- internal/adopt/crd.go: taking a CustomResourceDefinition over into a Helm release.
pub mod Owned
pub mod Written
use unifi_reactor.Base.{
  Bool, true, false, not, ◌&&◌, ◌||◌, List, [], ◌∷◌, Option, none, some, if◌then◌else◌,
}
use unifi_reactor.Base.Text.{Text, codes, same}
use unifi_reactor.Base.Dict.{Dict, get_or, insert, lookup, is_some}

-- A decoded JSON value, the `any` of the documents.
mutual
  pub data Json : Type 0 where
    string : Text → Json
    number : Text → Json
    boolean : Bool → Json
    null : Json
    array : Elements → Json
    object : Members → Json

  pub data Elements : Type 0 where
    end : Elements
    element : Json → Elements → Elements

  pub data Members : Type 0 where
    close : Members
    member : Text → Json → Members → Members

-- `map[string]any` and the object that it is written as
abbrev pub Document : Type 0
Document = Dict Json

unfoldable pub entries : Members → Document
entries close = []
entries (member k v rest) = (k, v) ∷ entries rest

unfoldable pub members : Document → Members
members [] = close
members ((k, v) ∷ rest) = member k v (members rest)

-- `v.(string)` and `v.(map[string]any)`, of what a map holds under a key
unfoldable pub as_string : Option Json → Option Text
as_string (some (string s)) = some s
as_string _ = none

unfoldable pub as_object : Option Json → Option Document
as_object (some (object m)) = some (entries m)
as_object _ = none

abbrev pub release_name_annotation : Text
release_name_annotation = codes "meta.helm.sh/release-name"

abbrev pub release_namespace_annotation : Text
release_namespace_annotation = codes "meta.helm.sh/release-namespace"

abbrev pub managed_by_label : Text
managed_by_label = codes "app.kubernetes.io/managed-by"

abbrev pub managed_by_helm : Text
managed_by_helm = codes "Helm"

abbrev pub crd_kind : Text
crd_kind = codes "CustomResourceDefinition"

pub record Options : Type 0 where
  pub name : Text
  pub release : Text
  pub namespace : Text
  pub manifest_path : Text

pub data AdoptError : Type 0 where
  options_missing unreadable unreadable_manifest unparsable_manifest too_many_documents : AdoptError
  no_spec no_document unmarshalled patch_refused : AdoptError
  other_kind other_name : Text → AdoptError
  other_release : Text → Text → AdoptError

pub data Result {ℓ} (A : Type ℓ) : Type ℓ where
  ok : A → Result A
  failed : AdoptError → Result A

-- What a decoder gives: the documents that it decodes, and whether an error ends them.
pub record Decoded : Type 0 where
  pub documents : List Document
  pub is_malformed : Bool

-- The annotations of the live object.
pub data Fetched : Type 0 where
  live : Dict Text → Fetched
  not_found : Fetched
  unread : Fetched

-- `os.ReadFile` with the YAML decoder on the file, `json.Marshal`, and the API server.
pub record Server (W : Type 0) : Type 0 where
  pub read_manifest : Text → Option Decoded
  pub marshal : Document → Option Text
  pub fetch : W → Text → Fetched
  pub patch : W → Text → Text → W × Bool

unfoldable pub document_name : Document → Text
document_name document = elim (as_object (lookup (codes "metadata") document)) [
  | none ↦ []
  | some metadata ↦ get_or [] (as_string (lookup (codes "name") metadata))
]

unfoldable pub chart_annotations : Document → Document
chart_annotations document = elim (as_object (lookup (codes "metadata") document)) [
  | none ↦ []
  | some metadata ↦ get_or [] (as_object (lookup (codes "annotations") metadata))
]

-- The guards on one document that is not empty.
unfoldable pub document_fault : Text → Option Document → Document → Option AdoptError
document_fault name found document =
    let kind = get_or [] (as_string (lookup (codes "kind") document)) in
    let got = document_name document in
    if not (same kind crd_kind)
    then some (other_kind kind)
    else if not (same got name)
    then some (other_name got)
    else if is_some found
    then some too_many_documents
    else if not (is_some (as_object (lookup (codes "spec") document)))
    then some no_spec
    else none

-- The loop of `chartDocument`: `found` is the document kept so far.
unfoldable pub scan_documents : Text → Bool → Option Document → List Document → Result Document
scan_documents name is_malformed found [] =
    if is_malformed
    then failed unparsable_manifest
    else elim found [ none ↦ failed no_document | some document ↦ ok document ]
scan_documents name is_malformed found ([] ∷ rest) = scan_documents name is_malformed found rest
scan_documents name is_malformed found ((m ∷ ms) ∷ rest) =
    let next = scan_documents name is_malformed (some (m ∷ ms)) rest in
    elim (document_fault name found (m ∷ ms)) [ none ↦ next | some e ↦ failed e ]

-- `maps.Copy(dst, src)`
unfoldable pub copy_into : Document → Document → Document
copy_into dst [] = dst
copy_into dst ((k, v) ∷ src) = copy_into (insert k v dst) src

-- The two writes that end the annotations of the patch.
unfoldable pub own : Options → Document → Document
own opts annotations =
    insert release_namespace_annotation (string opts.namespace)
      (insert release_name_annotation (string opts.release) annotations)

unfoldable pub patch_metadata : Document → Json
patch_metadata annotations = object (
    members (
      (codes "labels", object (members ((managed_by_label, string managed_by_helm) ∷ [])))
      ∷ (codes "annotations", object (members annotations))
      ∷ []))

-- The first guard of `CRD`.
unfoldable pub is_incomplete : Options → Bool
is_incomplete opts = same opts.name [] || same opts.release [] || same opts.namespace []

module _ {W : Type 0} (x : Server W) where
  unfoldable pub chart_document : Text → Text → Result Document
  chart_document path name = elim (x.read_manifest path) [
    | none ↦ failed unreadable_manifest
    | some d ↦ scan_documents name d.is_malformed none d.documents
  ]

  -- The patch before `json.Marshal`; a `spec` that is absent is written as null.
  unfoldable pub adoption_patch : Options → Result Document
  adoption_patch opts =
      if same opts.manifest_path []
      then ok ((codes "metadata", patch_metadata (own opts [])) ∷ [])
      else elim (chart_document opts.manifest_path opts.name) [
        | failed e ↦ failed e
        | ok document ↦ ok (
            (
              codes "metadata",
              patch_metadata (own opts (copy_into [] (chart_annotations document))),
            )
            ∷ (codes "spec", get_or null (lookup (codes "spec") document))
            ∷ [])
      ]

  unfoldable pub send_patch : W → Options → Document → W × Result {0} Unit
  send_patch w opts patch = elim (x.marshal patch) [
    | none ↦ (w, failed unmarshalled)
    | some raw ↦
        let sent = x.patch w opts.name raw in
        (sent.0, if sent.1 then ok tt else failed patch_refused)
  ]

  -- The three cases of the live object's owner.
  unfoldable pub adopt_live : W → Options → Dict Text → W × Result {0} Unit
  adopt_live w opts annotations =
      let owner = get_or [] (lookup release_name_annotation annotations) in
      let owner_namespace = get_or [] (lookup release_namespace_annotation annotations) in
      if same owner []
      then elim (adoption_patch opts) [
        | failed e ↦ (w, failed e)
        | ok patch ↦ send_patch w opts patch
      ]
      else if same owner opts.release && same owner_namespace opts.namespace
      then (w, ok tt)
      else (w, failed (other_release owner owner_namespace))

  unfoldable pub adopt_fetched : W → Options → Fetched → W × Result {0} Unit
  adopt_fetched w opts not_found = (w, ok tt)
  adopt_fetched w opts unread = (w, failed unreadable)
  adopt_fetched w opts (live annotations) = adopt_live w opts annotations

  -- `CRD`
  unfoldable pub crd : W → Options → W × Result {0} Unit
  crd w opts =
      if is_incomplete opts
      then (w, failed options_missing)
      else adopt_fetched w opts (x.fetch w opts.name)
