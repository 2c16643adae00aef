-- ===== src/Tests/Adopt.antt =====
-- An adoption at concrete inputs: the world is the list of the patches that were sent.
use unifi_reactor.Base.{true, false, List, [], ◌∷◌, some, ◌≡◌, refl}
use unifi_reactor.Base.Text.{Text, codes, same}
use unifi_reactor.Base.Dict.{Dict, lookup}
use unifi_reactor.Adopt.{
  Document, Options, Server, adopt_fetched, adopt_live, adoption_patch, as_object, as_string,
  chart_document, crd, document_fault, document_name, entries, is_incomplete, live, members, object,
  ok, failed, other_name, other_release, release_name_annotation, scan_documents, send_patch,
  string,
}
use unifi_reactor.Adopt.Written.{IsAdoption, crd-IsAdoption}

abbrev automations : Options
automations = record {
  name = codes "automations";
  release = codes "reactor";
  namespace = codes "unifi";
  manifest_path = codes "/crd.yaml";
}

abbrev chart_crd : Document
chart_crd =
    (codes "kind", string (codes "CustomResourceDefinition"))
    ∷ (
      codes "metadata",
      object (
          members (
            (codes "name", string (codes "automations"))
            ∷ (
              codes "annotations",
              object (members ((release_name_annotation, string (codes "theirs")) ∷ [])),
            )
            ∷ [])),
    )
    ∷ (codes "spec", object (members []))
    ∷ []

-- A server whose definition has the given annotations.
abbrev server_with : Dict Text → Server (List Text)
server_with annotations = record {
  read_manifest = λ path. some (record { documents = [] ∷ chart_crd ∷ []; is_malformed = false });
  marshal = λ document. some (codes "patch");
  fetch = λ w name. live annotations;
  patch = λ w name raw. (raw ∷ w, true);
}

abbrev theirs : Dict Text
theirs = (release_name_annotation, codes "other") ∷ []

adopts_unowned : crd (server_with []) [] automations ≡ (codes "patch" ∷ [], ok tt)
unfolding crd is_incomplete same adopt_fetched adopt_live lookup adoption_patch chart_document
    scan_documents document_fault document_name as_string as_object entries members send_patch
adopts_unowned = refl

leaves_other_release :
    crd (server_with theirs) [] automations ≡ ([], failed (other_release (codes "other") []))
unfolding crd is_incomplete same adopt_fetched adopt_live lookup
leaves_other_release = refl

rejects_other_name :
    chart_document (server_with []) (codes "/crd.yaml") (codes "others")
    ≡ failed (other_name (codes "automations"))
unfolding same lookup chart_document scan_documents document_fault document_name as_string as_object
    entries members
rejects_other_name = refl

crd-IsAdoption_example :
    IsAdoption (server_with []) [] automations (crd (server_with []) [] automations)
crd-IsAdoption_example = crd-IsAdoption (server_with []) [] automations
