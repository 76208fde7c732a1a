-- ===== src/Tests/Docker.antt =====
-- Compose files at concrete inputs.
use greensecops.Docker.Listed.{UniquePaths}
use greensecops.Docker.Complete.{HasMerges, HasWholes, effective_compose_documents_complete}
use greensecops.Common.{
  sym, ap, ◌∙◌, text_eq_refl, Memᴰ, subst, ◌≡◌, refl, List, [], ◌∷◌, All, some, true, false, Text,
  codes, text_eq, starts_with, drop_length, length,
}
use greensecops.Docker.Values.{
  is_truthy, Value, flag, text, sequence, mapping, nil, item, Fields, end, field, get, put, has_key,
}
use greensecops.Docker.Compose.{merge_mappings, merge_services, is_override, source_file}
use greensecops.Docker.Documents.{
  path_of, is_override_document, effective_compose_documents, is_override_document,
  override_base_name,
}
use greensecops.Docker.Lookup.{UniqueKeys}
use greensecops.Docker.Merging.{value_at, get-merge_mappings}
use greensecops.Docker.Restating.{IsPlainMapping, merge_mappings_same}
use greensecops.Docker.Effective.{
  BasesAreWhole, IsConfiguration, effective_compose_documents-IsConfiguration,
}
use greensecops.Docker.Attribution.{file_of, merge_services-source_file}

-- A service with one capability, and an override that adds another.
abbrev web : Fields
web =
    field (codes "image") (text (codes "web:1"))
      (field (codes "cap_add") (sequence (item (text (codes "CHOWN")) nil)) end)

abbrev more : Fields
more = field (codes "cap_add") (sequence (item (text (codes "SYS_ADMIN")) nil)) end

abbrev base_services : Fields
base_services = field (codes "web") (mapping web) end

abbrev override_services : Fields
override_services = field (codes "web") (mapping more) (field (codes "db") (mapping more) end)

abbrev base_path : Text
base_path = codes "compose.yml"

abbrev path : Text
path = codes "compose.override.yml"

abbrev document : Text → Value → Fields → Fields
document p override services =
    field source_file (text p)
      (field is_override override (field (codes "services") (mapping services) end))

abbrev documents : List Fields
documents =
    document path (flag true) override_services ∷ document base_path (flag false) base_services ∷ []

-- The directory stays, and so does what stands in the name but in the directory.
base_name :
    override_base_name (codes "a.override.b/compose.override.yml")
    ≡ codes "a.override.b/compose.yml"
unfolding override_base_name starts_with drop_length
base_name = refl

-- A name in other letters is paired with itself.
own_base : override_base_name (codes "Compose.Override.yml") ≡ codes "Compose.Override.yml"
unfolding override_base_name starts_with drop_length
own_base = refl

-- The two files are evaluated as one.
one_configuration : length (effective_compose_documents documents) ≡ 1
unfolding effective_compose_documents text_eq starts_with drop_length
one_configuration = refl

more_unique : UniqueKeys more
unfolding has_key
more_unique = (refl, tt)

get-merge_mappings_example :
    get (codes "cap_add") (merge_mappings web more)
    ≡ value_at (codes "cap_add") (get (codes "cap_add") web) (get (codes "cap_add") more)
get-merge_mappings_example = get-merge_mappings (codes "cap_add") web more more_unique

web_plain : IsPlainMapping web
unfolding has_key text_eq
web_plain = (refl, tt, (refl, (tt, tt), tt))

merge_mappings_same_example : merge_mappings web web ≡ web
merge_mappings_same_example = merge_mappings_same web web_plain

override_unique : UniqueKeys override_services
unfolding has_key text_eq
override_unique = (refl, (refl, tt))

-- The override alone has the database.
database : Fields
database = put source_file (text path) more

database_merged :
    get (codes "db") (merge_services base_services override_services base_path path)
    ≡ some (mapping database)
unfolding merge_services get put text_eq database
database_merged = refl

merge_services-source_file_example :
    get source_file database ≡ some (text (file_of base_path path (get (codes "db") base_services)))
merge_services-source_file_example =
    merge_services-source_file (codes "db") base_path path base_services override_services database
      override_unique database_merged

bases_whole : BasesAreWhole documents
unfolding path_of get text_eq override_base_name starts_with drop_length is_override_document
    is_truthy
bases_whole base override (Memᴰ.head e) (Memᴰ.head f) o p =
    let own : path_of (document path (flag true) override_services)
        ≡ override_base_name (path_of (document path (flag true) override_services)) =
      subst
        (λ x.
          path_of (document path (flag true) override_services) ≡ override_base_name (path_of x))
        f (subst (λ x. path_of x ≡ override_base_name (path_of override)) e p) in
    let same : false ≡ true = subst (λ x. text_eq path x ≡ true) own (text_eq_refl path) in
    absurd (cc)
bases_whole base override (Memᴰ.head e) (Memᴰ.tail (Memᴰ.head f)) o p =
    let q : is_override_document (document base_path (flag false) base_services) ≡ true =
      subst (λ x. is_override_document x ≡ true) f o in
    absurd (cc)
bases_whole base override (Memᴰ.head e) (Memᴰ.tail (Memᴰ.tail m)) o p = elim m [ ]
bases_whole base override (Memᴰ.tail (Memᴰ.head e)) m o p = rw e refl
bases_whole base override (Memᴰ.tail (Memᴰ.tail k)) m o p = elim k [ ]

effective_compose_documents_example :
    All (IsConfiguration documents) (effective_compose_documents documents)
effective_compose_documents_example =
    effective_compose_documents-IsConfiguration documents bases_whole

-- The two documents have different paths.
paths_differ : text_eq path base_path ≡ false
unfolding text_eq
paths_differ = refl

unique_paths : UniquePaths documents
unfolding path_of get text_eq
unique_paths a b (Memᴰ.head e) (Memᴰ.head f) p = e ∙ sym f
unique_paths a b (Memᴰ.tail (Memᴰ.head e)) (Memᴰ.tail (Memᴰ.head f)) p = e ∙ sym f
unique_paths a b (Memᴰ.head e) (Memᴰ.tail (Memᴰ.head f)) p =
    let same : path ≡ base_path =
      subst (λ x. path ≡ path_of x) f (subst (λ x. path_of x ≡ path_of b) e p) in
    let clash : true ≡ false = sym (text_eq_refl path) ∙ ap (text_eq path) same ∙ paths_differ in
    absurd (cc)
unique_paths a b (Memᴰ.tail (Memᴰ.head e)) (Memᴰ.head f) p =
    let same : path ≡ base_path =
      subst (λ x. path ≡ path_of x) e (subst (λ x. path_of x ≡ path_of a) f (sym p)) in
    let clash : true ≡ false = sym (text_eq_refl path) ∙ ap (text_eq path) same ∙ paths_differ in
    absurd (cc)
unique_paths a b (Memᴰ.tail (Memᴰ.tail m)) n p = elim m [ ]
unique_paths a b (Memᴰ.head e) (Memᴰ.tail (Memᴰ.tail n)) p = elim n [ ]
unique_paths a b (Memᴰ.tail (Memᴰ.head e)) (Memᴰ.tail (Memᴰ.tail n)) p = elim n [ ]

effective_compose_documents_complete_example : HasMerges documents × HasWholes documents
effective_compose_documents_complete_example =
    effective_compose_documents_complete documents unique_paths
