-- ===== src/Docker/Attribution.antt =====
-- Which file a service is said to stand in: `_merge_services` of
-- backend/app/services/docker/compose_merge.py.
use greensecops.Common.{
  sym, ◌≡◌, refl, false, Option, none, some, inl, inr, Bool-cases, arith, Text, text_eq,
  text_eq_refl, text_eq→eq, subst,
}
use greensecops.Docker.Values.{
  Value, null, flag, number, text, sequence, mapping, Fields, end, field, get, put, has_key,
}
use greensecops.Docker.Lookup.{UniqueKeys, get-put, get-has_key, get-put_same}
use greensecops.Docker.Compose.{
  source_file, sourced, source_services, keep_key, merge_service, override_service,
  override_services, merge_services,
}

get-source_services :
    (name path : Text) (services : Fields)
    → get name (source_services path services)
      ≡ elim (get name services) [ none ↦ none | some service ↦ some (sourced path service) ]
unfolding source_services get
get-source_services name path end = refl
get-source_services name path (field n service services) =
    ground (arith, get-source_services name path services)

-- What an override leaves under a name.
abbrev overridden : Text → Option Value → Option Value → Option Value
overridden path kept none = kept
overridden path kept (some service) = some (override_service path kept service)

override_services-field :
    (path : Text) (merged : Fields) (name : Text) (service : Value) (services : Fields)
    → override_services path merged (field name service services)
      ≡ override_services path
          (put name (override_service path (get name merged) service) merged)
          services
unfolding override_services
override_services-field path merged name service services = refl

get-override_services :
    (k path : Text) (merged override : Fields)
    → UniqueKeys override
    → get k (override_services path merged override)
      ≡ overridden path (get k merged) (get k override)
unfolding get
get-override_services k path merged end u = unfold override_services in refl
get-override_services k path merged (field name service services) (fresh, u) =
    let next = put name (override_service path (get name merged) service) merged in
    rw (override_services-field path merged name service services) (
      rw (get-override_services k path next services u) (
        rw (get-put k name (override_service path (get name merged) service) merged)
          (elim (Bool-cases (text_eq name k)) [
            | inl e ↦ rw (text_eq→eq name k e) (
                rw (text_eq_refl k) (
                  rw
                    (get-has_key k services
                      (subst (λ x. has_key x services ≡ false) (text_eq→eq name k e) fresh))
                    refl))
            | inr n ↦ rw n refl
          ])))

-- The service, where it is a mapping, is said to stand in the file.
abbrev IsFrom : Text → Value → Type 0
IsFrom path (mapping service) = get source_file service ≡ some (text path)
IsFrom path _ = Unit

sourced-IsFrom : (path : Text) (service : Value) → IsFrom path (sourced path service)
unfolding sourced
sourced-IsFrom path null = tt
sourced-IsFrom path (flag b) = tt
sourced-IsFrom path (number n) = tt
sourced-IsFrom path (text t) = tt
sourced-IsFrom path (sequence items) = tt
sourced-IsFrom path (mapping service) = get-put_same source_file (text path) service

get-keep_key :
    (key : Text) (existing fields : Fields) (value : Value)
    → get key existing ≡ some value
    → get key (keep_key key existing fields) ≡ some value
unfolding keep_key
get-keep_key key existing fields value h = ground (arith, h, get-put_same key value fields)

merge_service-IsFrom :
    (path : Text) (existing service : Fields)
    → IsFrom path (mapping existing)
    → IsFrom path (mapping (merge_service existing service))
unfolding merge_service
merge_service-IsFrom path existing service h = get-keep_key source_file existing _ (text path) h

-- The file of a service, from what the base has under its name.
abbrev pub file_of : Text → Text → Option Value → Text
file_of base_path path none = path
file_of base_path path (some null) = path
file_of base_path path (some _) = base_path

override_service-IsFrom :
    (base_path path : Text) (base : Option Value) (service : Value)
    → IsFrom (file_of base_path path base) (
        override_service path
          (elim base [ none ↦ none | some old ↦ some (sourced base_path old) ])
          service)
unfolding override_service sourced
override_service-IsFrom base_path path none service = sourced-IsFrom path service
override_service-IsFrom base_path path (some null) service = sourced-IsFrom path service
override_service-IsFrom base_path path (some (flag b)) service = tt
override_service-IsFrom base_path path (some (number n)) service = tt
override_service-IsFrom base_path path (some (text t)) service = tt
override_service-IsFrom base_path path (some (sequence items)) service = tt
override_service-IsFrom base_path path (some (mapping old)) (mapping service) =
    merge_service-IsFrom base_path _ service (sourced-IsFrom base_path (mapping old))
override_service-IsFrom base_path path (some (mapping old)) null =
    sourced-IsFrom base_path (mapping old)
override_service-IsFrom base_path path (some (mapping old)) (flag b) =
    sourced-IsFrom base_path (mapping old)
override_service-IsFrom base_path path (some (mapping old)) (number n) =
    sourced-IsFrom base_path (mapping old)
override_service-IsFrom base_path path (some (mapping old)) (text t) =
    sourced-IsFrom base_path (mapping old)
override_service-IsFrom base_path path (some (mapping old)) (sequence items) =
    sourced-IsFrom base_path (mapping old)

is_mapping-IsFrom :
    (path : Text) (value : Value) (service : Fields)
    → IsFrom path value
    → some value ≡ some (mapping service)
    → get source_file service ≡ some (text path)
is_mapping-IsFrom path value service f h =
    let e : value ≡ mapping service = cc in subst (IsFrom path) e f

overridden-IsFrom :
    (base_path path : Text) (base : Option Value) (override : Option Value) (service : Fields)
    → overridden path (elim base [ none ↦ none | some old ↦ some (sourced base_path old) ]) override
      ≡ some (mapping service)
    → get source_file service ≡ some (text (file_of base_path path base))
unfolding sourced
overridden-IsFrom base_path path base (some value) service h =
    is_mapping-IsFrom (file_of base_path path base) _ service
      (override_service-IsFrom base_path path base value) h
overridden-IsFrom base_path path none none service h = absurd (cc)
overridden-IsFrom base_path path (some null) none service h = absurd (cc)
overridden-IsFrom base_path path (some (flag b)) none service h = absurd (cc)
overridden-IsFrom base_path path (some (number n)) none service h = absurd (cc)
overridden-IsFrom base_path path (some (text t)) none service h = absurd (cc)
overridden-IsFrom base_path path (some (sequence items)) none service h = absurd (cc)
overridden-IsFrom base_path path (some (mapping old)) none service h =
    is_mapping-IsFrom base_path _ service (sourced-IsFrom base_path (mapping old)) h

-- A service that is a mapping in the merged document names the file that declares it: the base's where
-- the base declares it as anything but null, and otherwise the override's. The override declares no service
-- twice.
pub merge_services-source_file :
    (name base_path path : Text) (base override service : Fields)
    → UniqueKeys override
    → get name (merge_services base override base_path path) ≡ some (mapping service)
    → get source_file service ≡ some (text (file_of base_path path (get name base)))
unfolding merge_services
merge_services-source_file name base_path path base override service u h =
    overridden-IsFrom base_path path (get name base) (get name override) service (
      rw (sym (get-source_services name base_path base))
        (rw (sym (get-override_services name path (source_services base_path base) override u)) h))
