-- ===== src/Docker/Compose.antt =====
-- How two mappings, and the services of two documents, are merged:
-- backend/app/services/docker/compose_merge.py.
use greensecops.Common.{Bool, Option, none, some, ◌||◌, if◌then◌else◌, Text, codes, text_eq}
use greensecops.Docker.Values.{
  Value, null, text, sequence, mapping, Items, nil, item, Fields, end, field, get, put, is_item,
  append_items,
}

unfoldable pub is_replaced_key : Text → Bool
is_replaced_key key =
    text_eq key (codes "command")
    || text_eq key (codes "entrypoint")
    || text_eq key (codes "env_file")
    || text_eq key (codes "healthcheck")

abbrev pub source_file : Text
source_file = codes "__docker_file"

abbrev pub source_files : Text
source_files = codes "__compose_files"

abbrev pub start_line : Text
start_line = codes "__start_line__"

abbrev pub end_line : Text
end_line = codes "__end_line__"

abbrev pub is_override : Text
is_override = codes "is_override"

unfoldable pub is_internal_key : Text → Bool
is_internal_key key =
    text_eq key source_file
    || text_eq key source_files
    || text_eq key start_line
    || text_eq key end_line
    || text_eq key is_override

-- The items that are not in the base, put behind what is merged so far.
unfoldable pub extend_items : Items → Items → Items → Items
unfolding is_item
extend_items base merged nil = merged
extend_items base merged (item v items) =
    extend_items base (if is_item v base then merged else append_items merged (item v nil)) items

unfoldable mutual
  unfolding is_replaced_key is_internal_key extend_items get put

  pub merge_value : Text → Value → Value → Value
  merge_value key (mapping base) (mapping override) =
      let merged = mapping (merge_fields base base override) in
      if is_replaced_key key then mapping override else merged
  merge_value key (sequence base) (sequence override) =
      if is_replaced_key key then sequence override else sequence (extend_items base base override)
  merge_value key base override = override

  -- The loop of `_merge_mappings`, with what is merged so far.
  pub merge_fields : Fields → Fields → Fields → Fields
  merge_fields base merged end = merged
  merge_fields base merged (field key value rest) =
      merge_fields base
        (if is_internal_key key
          then merged
          else put key (elim (get key base) [ none ↦ value | some old ↦ merge_value key old value ])
              merged)
        rest

unfoldable pub merge_mappings : Fields → Fields → Fields
unfolding merge_value
merge_mappings base override = merge_fields base base override

-- A service that is a mapping, with the file that it stands in.
unfoldable pub sourced : Text → Value → Value
unfolding put
sourced path (mapping service) = mapping (put source_file (text path) service)
sourced path service = service

unfoldable pub source_services : Text → Fields → Fields
unfolding sourced
source_services path end = end
source_services path (field name service services) =
    field name (sourced path service) (source_services path services)

-- `existing[key]` in `kept`, if it is there.
unfoldable pub keep_key : Text → Fields → Fields → Fields
unfolding put get
keep_key key existing fields = elim (get key existing) [
  | none ↦ fields
  | some value ↦ put key value fields
]

unfoldable pub merge_service : Fields → Fields → Fields
unfolding keep_key merge_mappings
merge_service existing service =
    keep_key source_file existing
      (keep_key end_line existing (keep_key start_line existing (merge_mappings existing service)))

-- What stands under the name of a service of the override.
unfoldable pub override_service : Text → Option Value → Value → Value
unfolding merge_service sourced
override_service path (some (mapping existing)) (mapping service) =
    mapping (merge_service existing service)
override_service path none service = sourced path service
override_service path (some null) service = sourced path service
override_service path (some existing) service = existing

unfoldable pub override_services : Text → Fields → Fields → Fields
unfolding override_service put get
override_services path merged end = merged
override_services path merged (field name service services) =
    override_services path (put name (override_service path (get name merged) service) merged)
      services

unfoldable pub merge_services : Fields → Fields → Text → Text → Fields
unfolding source_services override_services
merge_services base override base_path override_path =
    override_services override_path (source_services base_path base) override
