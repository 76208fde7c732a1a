-- ===== src/Docker/Documents.antt =====
-- `effective_compose_documents` of backend/app/services/docker/compose_merge.py. A document is its
-- mapping. Its `services`, where they are not empty, are a mapping, as the parser sees to, and its
-- path is normal, so that `PurePosixPath` changes no other part of it.
use greensecops.Common.{
  text_lt, Bool, false, List, [], ◌∷◌, ◌++◌, Option, none, some, ◌==◌, any, if◌then◌else◌, Text,
  codes, text_eq, starts_with, drop_length,
}
use greensecops.Docker.Values.{
  Value, flag, text, sequence, mapping, nil, item, Fields, end, get, put, is_truthy,
}
use greensecops.Docker.Compose.{
  source_file, source_files, is_override, merge_mappings, merge_services,
}

-- `s.replace(old, new, 1)`.
unfoldable pub replace_first : Text → Text → Text → Text
replace_first old new [] = []
replace_first old new (c ∷ s) =
    let rest = c ∷ replace_first old new s in
    if starts_with old (c ∷ s) then new ++ drop_length old (c ∷ s) else rest

unfoldable pub has_slash : Text → Bool
has_slash path = any (λ c. c == b'/') path

unfoldable pub override_base_name : Text → Text
unfolding replace_first has_slash
override_base_name [] = []
override_base_name (c ∷ path) =
    let rest = c ∷ override_base_name path in
    if has_slash (c ∷ path) then rest else replace_first (codes ".override.") (codes ".") (c ∷ path)

unfoldable pub text_of : Option Value → Text
text_of (some (text t)) = t
text_of _ = []

-- `doc.get("__docker_file", "")`.
unfoldable pub path_of : Fields → Text
unfolding text_of get
path_of doc = text_of (get source_file doc)

-- `by_path[path] = doc`.
unfoldable pub put_document : Text → Fields → List (Text × Fields) → List (Text × Fields)
put_document path doc [] = (path, doc) ∷ []
put_document path doc ((p, d) ∷ docs) =
    let rest = (p, d) ∷ put_document path doc docs in
    if text_eq p path then (p, doc) ∷ docs else rest

unfoldable pub index_documents : List (Text × Fields) → List Fields → List (Text × Fields)
unfolding put_document path_of
index_documents by_path [] = by_path
index_documents by_path (doc ∷ docs) = index_documents (put_document (path_of doc) doc by_path) docs

unfoldable pub insert_document : Text × Fields → List (Text × Fields) → List (Text × Fields)
unfolding text_lt
insert_document entry [] = entry ∷ []
insert_document (path, doc) ((p, d) ∷ docs) =
    let rest = (p, d) ∷ insert_document (path, doc) docs in
    if text_lt path p then (path, doc) ∷ (p, d) ∷ docs else rest

unfoldable pub sort_documents : List (Text × Fields) → List (Text × Fields)
unfolding insert_document
sort_documents [] = []
sort_documents (entry ∷ docs) = insert_document entry (sort_documents docs)

unfoldable pub find_document : Text → List (Text × Fields) → Option Fields
find_document path [] = none
find_document path ((p, d) ∷ docs) =
    let rest = find_document path docs in if text_eq p path then some d else rest

unfoldable pub is_override_document : Fields → Bool
unfolding is_truthy get
is_override_document doc = elim (get is_override doc) [
  | none ↦ false
  | some value ↦ is_truthy value
]

-- `doc.get("services") or {}`.
unfoldable pub services_of : Fields → Fields
unfolding get
services_of doc = elim (get (codes "services") doc) [
  | some value ↦ elim value [ mapping services ↦ services | _ ↦ end ]
  | none ↦ end
]

unfoldable pub merge_documents : Text → Fields → Text → Fields → Fields
unfolding merge_mappings merge_services services_of put
merge_documents base_path base path override = put is_override (flag false) (
    put source_files (sequence (item (text base_path) (item (text path) nil))) (
      put source_file (text base_path) (
        put (codes "services")
          (mapping (merge_services (services_of base) (services_of override) base_path path))
          (merge_mappings base override))))

-- The two results of the first loop: the effective documents and the superseded paths.
unfoldable pub merge_overrides :
    List (Text × Fields) → List (Text × Fields) → List Fields × List Text
unfolding merge_documents is_override_document override_base_name find_document
merge_overrides by_path [] = ([], [])
merge_overrides by_path ((path, override) ∷ docs) =
    let (effective, superseded) = merge_overrides by_path docs in
    let base_path = override_base_name path in
    if is_override_document override
    then elim (find_document base_path by_path) [
      | none ↦ (effective, path ∷ superseded)
      | some base ↦
          (merge_documents base_path base path override ∷ effective, base_path ∷ path ∷ superseded)
    ]
    else (effective, superseded)

-- `path in superseded`.
unfoldable pub is_superseded : List Text → Text → Bool
is_superseded superseded path = any (text_eq path) superseded

unfoldable pub remaining_documents : List Text → List (Text × Fields) → List Fields
unfolding is_superseded
remaining_documents superseded [] = []
remaining_documents superseded ((path, doc) ∷ docs) =
    let rest = remaining_documents superseded docs in
    if is_superseded superseded path then rest else doc ∷ rest

unfoldable pub effective_compose_documents : List Fields → List Fields
unfolding index_documents sort_documents merge_overrides remaining_documents
effective_compose_documents documents =
    let by_path = sort_documents (index_documents [] documents) in
    let (effective, superseded) = merge_overrides by_path by_path in
    effective ++ remaining_documents superseded by_path
