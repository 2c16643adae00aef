-- ===== src/Adopt/Owned.antt =====
-- internal/adopt/crd.go: who owns the definition after an adoption, and which manifests are taken.
use unifi_reactor.Base.{
  ◌≡◌, refl, ap, sym, ◌∙◌, subst, Bool-cases, Option-cases, Bool, true, false, List, [], ◌∷◌,
  Option, none, some, inl, inr, ◌⊎◌, arith,
}
use unifi_reactor.Base.Text.{Text, codes, same, same→eq}
use unifi_reactor.Base.Dict.{get_or, lookup, is_some, lookup-insert}
use unifi_reactor.Adopt.{
  AdoptError, null, string, Document, entries, members, as_string, as_object, crd_kind, Options,
  Server, Result, ok, failed, document_name, document_fault, scan_documents, own, chart_document,
  chart_annotations, adoption_patch, release_name_annotation, release_namespace_annotation,
  patch_metadata, copy_into,
}

entries-members : (m : Document) → entries (members m) ≡ m
unfolding entries members
entries-members [] = refl
entries-members ((k, v) ∷ m) = ap (λ r. (k, v) ∷ r) (entries-members m)

pub Result-cases :
    (r : Result Document) → ((d : Document) × (r ≡ ok d)) ⊎ ((e : AdoptError) × (r ≡ failed e))
Result-cases (ok d) = inl (d, refl)
Result-cases (failed e) = inr (e, refl)

-- A document that may be applied under a name.
unfoldable pub IsAdoptable : Text → Document → Type 0
IsAdoptable name document =
    (get_or [] (as_string (lookup (codes "kind") document)) ≡ crd_kind)
    × (document_name document ≡ name)
    × (is_some (as_object (lookup (codes "spec") document)) ≡ true)

document_fault-IsAdoptable :
    (name : Text) (found : Option Document) (document : Document)
    → document_fault name found document ≡ none
    → IsAdoptable name document
unfolding document_fault IsAdoptable
document_fault-IsAdoptable name found document h = (
  ground (arith, same→eq (get_or [] (as_string (lookup (codes "kind") document))) crd_kind),
  ground (arith, same→eq (document_name document) name),
  ground arith,
)

scan_documents-IsAdoptable :
    (name : Text) (is_malformed : Bool) (found : Option Document) (rest : List Document)
    (d : Document)
    → ((f : Document) → found ≡ some f → IsAdoptable name f)
    → scan_documents name is_malformed found rest ≡ ok d
    → IsAdoptable name d
unfolding scan_documents
scan_documents-IsAdoptable name true found [] d good h = ground arith
scan_documents-IsAdoptable name false none [] d good h = ground arith
scan_documents-IsAdoptable name false (some f) [] d good h = good d (grind arith)
scan_documents-IsAdoptable name is_malformed found ([] ∷ rest) d good h =
    scan_documents-IsAdoptable name is_malformed found rest d good h
scan_documents-IsAdoptable name is_malformed found ((m ∷ ms) ∷ rest) d good h =
    elim (Option-cases (document_fault name found (m ∷ ms))) [
      | inl e ↦
          scan_documents-IsAdoptable name is_malformed (some (m ∷ ms)) rest d
            (λ f k.
              subst (IsAdoptable name) (grind arith)
                (document_fault-IsAdoptable name found (m ∷ ms) e))
            (ground arith)
      | inr e ↦ ground arith
    ]

-- Annotations that name the release and the namespace of the options.
unfoldable pub IsOwned : Options → Document → Type 0
IsOwned opts annotations =
    (lookup release_name_annotation annotations ≡ some (string opts.release))
    × (lookup release_namespace_annotation annotations ≡ some (string opts.namespace))

own-IsOwned : (opts : Options) (annotations : Document) → IsOwned opts (own opts annotations)
unfolding own same IsOwned
own-IsOwned opts annotations = (
  lookup-insert _ _ _ _ ∙ lookup-insert _ release_name_annotation _ annotations,
  lookup-insert release_namespace_annotation _ _ _,
)

chart_annotations-patch_metadata :
    (annotations rest : Document)
    → chart_annotations ((codes "metadata", patch_metadata annotations) ∷ rest) ≡ annotations
unfolding chart_annotations patch_metadata as_object members entries lookup same
chart_annotations-patch_metadata annotations rest = entries-members annotations

patch-IsOwned :
    (opts : Options) (annotations rest patch : Document)
    → ◌≡◌ {A = Result Document}
        (ok ((codes "metadata", patch_metadata (own opts annotations)) ∷ rest))
        (ok patch)
    → IsOwned opts (chart_annotations patch)
patch-IsOwned opts annotations rest patch h =
    subst (IsOwned opts)
      (sym (chart_annotations-patch_metadata (own opts annotations) rest)
        ∙ ap chart_annotations (cc h))
      (own-IsOwned opts annotations)

-- Whatever the manifest of the chart says, the annotations of a patch name the release that adopts
-- and its namespace.
pub adoption_patch-IsOwned :
    {W : Type 0} (x : Server W) (opts : Options) (patch : Document)
    → adoption_patch x opts ≡ ok patch
    → IsOwned opts (chart_annotations patch)
unfolding adoption_patch
adoption_patch-IsOwned x opts patch h = elim (Bool-cases (same opts.manifest_path [])) [
  | inl e ↦ patch-IsOwned opts [] [] patch (ground arith)
  | inr e ↦ elim (Result-cases (chart_document x opts.manifest_path opts.name)) [
    | inl (document, k) ↦
        patch-IsOwned opts (copy_into [] (chart_annotations document))
          ((codes "spec", get_or null (lookup (codes "spec") document)) ∷ []) patch (ground arith)
    | inr (fault, k) ↦ ground arith
  ]
]

-- A manifest that is taken is the definition that is adopted, and has a spec.
chart_document-IsAdoptable :
    {W : Type 0} (x : Server W) (path name : Text) (document : Document)
    → chart_document x path name ≡ ok document
    → IsAdoptable name document
unfolding chart_document
chart_document-IsAdoptable x path name document h = elim (Option-cases (x.read_manifest path)) [
  | inl e ↦ ground arith
  | inr (d, e) ↦
      scan_documents-IsAdoptable name d.is_malformed none d.documents document (λ f k. ground arith)
        (ground arith)
]
