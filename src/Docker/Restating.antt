-- ===== src/Docker/Restating.antt =====
-- An override that restates its base: `_merge_mappings` of
-- backend/app/services/docker/compose_merge.py.
use greensecops.Common.{◌≡◌, refl, true, false, some, arith, Text, text_eq_refl, text_eq→eq}
use greensecops.Docker.Values.{
  Value, null, flag, number, text, sequence, mapping, Items, nil, item, Fields, end, field, get,
  put, has_key, value_eq, items_eq, fields_in, is_item, flag_eq,
}
use greensecops.Docker.Compose.{extend_items, merge_value, merge_fields, merge_mappings}

-- No mapping of the value, at any depth, has a key twice.
abbrev mutual
  pub IsPlain : Value → Type 0
  IsPlain (sequence items) = ArePlain items
  IsPlain (mapping fields) = IsPlainMapping fields
  IsPlain _ = Unit

  pub ArePlain : Items → Type 0
  ArePlain nil = Unit
  ArePlain (item v items) = IsPlain v × ArePlain items

  pub IsPlainMapping : Fields → Type 0
  IsPlainMapping end = Unit
  IsPlainMapping (field k v fields) = (has_key k fields ≡ false) × IsPlain v × IsPlainMapping fields

-- Every field of the first mapping stands in the second.
abbrev Within : Fields → Fields → Type 0
Within end whole = Unit
Within (field k v rest) whole = (get k whole ≡ some v) × Within rest whole

Within-field :
    (k : Text) (v : Value) (rest whole : Fields)
    → has_key k rest ≡ false
    → Within rest whole
    → Within rest (field k v whole)
unfolding get has_key
Within-field k v end whole h w = tt
Within-field k v (field k2 v2 rest) whole h w = (
  ground (arith, h, w.0, text_eq→eq k k2, text_eq_refl k),
  Within-field k v rest whole (ground (arith, h)) w.1,
)

Within-refl : (fields : Fields) → IsPlainMapping fields → Within fields fields
unfolding get
Within-refl end p = tt
Within-refl (field k v fields) p =
    (ground (arith, text_eq_refl k), Within-field k v fields fields p.0 (Within-refl fields p.2))

mutual
  unfolding value_eq get flag_eq

  value_eq_refl : (v : Value) → IsPlain v → value_eq v v ≡ true
  value_eq_refl null p = refl
  value_eq_refl (flag true) p = refl
  value_eq_refl (flag false) p = refl
  value_eq_refl (number n) p = ground arith
  value_eq_refl (text t) p = text_eq_refl t
  value_eq_refl (sequence items) p = items_eq_refl items p
  value_eq_refl (mapping fields) p =
      ground (arith, fields_in_refl fields fields p (Within-refl fields p))

  items_eq_refl : (items : Items) → ArePlain items → items_eq items items ≡ true
  items_eq_refl nil p = refl
  items_eq_refl (item v items) p = ground (arith, value_eq_refl v p.0, items_eq_refl items p.1)

  fields_in_refl :
      (rest whole : Fields) → IsPlainMapping rest → Within rest whole → fields_in rest whole ≡ true
  fields_in_refl end whole p w = refl
  fields_in_refl (field k v rest) whole (_, pv, p) (e, w) =
      ground (arith, e, value_eq_refl v pv, fields_in_refl rest whole p w)

-- Every one of the first items is among the second.
abbrev Among : Items → Items → Type 0
Among nil base = Unit
Among (item v items) base = (is_item v base ≡ true) × Among items base

Among-item : (v : Value) (items base : Items) → Among items base → Among items (item v base)
unfolding is_item
Among-item v nil base a = tt
Among-item v (item w items) base a = (ground (arith, a.0), Among-item v items base a.1)

Among-refl : (items : Items) → ArePlain items → Among items items
unfolding is_item
Among-refl nil p = tt
Among-refl (item v items) p =
    (ground (arith, value_eq_refl v p.0), Among-item v items items (Among-refl items p.1))

extend_items-Among :
    (base merged items : Items) → Among items base → extend_items base merged items ≡ merged
unfolding extend_items
extend_items-Among base merged nil a = refl
extend_items-Among base merged (item v items) a = rw a.0 (extend_items-Among base merged items a.1)

put-get : (k : Text) (v : Value) (fields : Fields) → get k fields ≡ some v → put k v fields ≡ fields
unfolding get put
put-get k v end h = cc
put-get k v (field k2 w fields) h = ground (arith, h, put-get k v fields)

mutual
  unfolding merge_value get

  merge_value_same : (key : Text) (v : Value) → IsPlain v → merge_value key v v ≡ v
  merge_value_same key null p = refl
  merge_value_same key (flag b) p = refl
  merge_value_same key (number n) p = refl
  merge_value_same key (text t) p = refl
  merge_value_same key (sequence items) p =
      ground (arith, extend_items-Among items items items (Among-refl items p))
  merge_value_same key (mapping fields) p =
      ground (arith, merge_fields_same fields fields p (Within-refl fields p))

  merge_fields_same :
      (rest base : Fields)
      → IsPlainMapping rest
      → Within rest base
      → merge_fields base base rest ≡ base
  merge_fields_same end base p w = refl
  merge_fields_same (field k v rest) base (_, pv, p) (e, w) =
      ground
        (arith, e, merge_value_same k v pv, put-get k v base e, merge_fields_same rest base p w)

-- An override that restates its base changes nothing: merged into a mapping that has no key twice at
-- any depth, that mapping itself gives it back.
pub merge_mappings_same : (base : Fields) → IsPlainMapping base → merge_mappings base base ≡ base
unfolding merge_mappings
merge_mappings_same base p = merge_fields_same base base p (Within-refl base p)
