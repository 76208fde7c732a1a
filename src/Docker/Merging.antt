-- ===== src/Docker/Merging.antt =====
-- What a merged mapping holds under a key: `_merge_mappings` of
-- backend/app/services/docker/compose_merge.py.
use greensecops.Common.{
  ◌≡◌, refl, sym, ap, ◌∙◌, subst, Bool, false, List, [], ◌∷◌, any, Option, none, some, inl, inr,
  if◌then◌else◌, Bool-cases, Option-cases, arith, Text, codes, text_eq, text_eq_refl, text_eq→eq,
}
use greensecops.Docker.Values.{
  Value, null, flag, number, text, sequence, mapping, Items, nil, item, Fields, end, field, get,
  put, has_key, is_item, append_items,
}
use greensecops.Docker.Compose.{
  is_internal_key, is_replaced_key, extend_items, merge_value, merge_fields, merge_mappings,
}
use greensecops.Docker.Lookup.{UniqueKeys, get-put, get-has_key}

-- The value under a key, from what the base and the override have there.
abbrev merged_at : Text → Option Value → Option Value → Option Value
merged_at key base none = base
merged_at key none (some value) = if is_internal_key key then none else some value
merged_at key (some old) (some value) =
    if is_internal_key key then some old else some (merge_value key old value)

-- The value that the loop assigns to a key of the override.
abbrev assigned : Text → Option Value → Value → Value
assigned key base value = elim base [ none ↦ value | some old ↦ merge_value key old value ]

-- What the loop leaves under a key, where `kept` stood there before.
abbrev looked_up : Text → Option Value → Option Value → Option Value → Option Value
looked_up key base kept none = kept
looked_up key base kept (some value) =
    if is_internal_key key then kept else some (assigned key base value)

-- What is merged after one round of the loop.
abbrev round : Fields → Fields → Text → Value → Fields
round base merged key value =
    if is_internal_key key then merged else put key (assigned key (get key base) value) merged

merge_fields-end : (base merged : Fields) → merge_fields base merged end ≡ merged
unfolding merge_value
merge_fields-end base merged = refl

merge_fields-field :
    (base merged : Fields) (key : Text) (value : Value) (rest : Fields)
    → merge_fields base merged (field key value rest)
      ≡ merge_fields base (round base merged key value) rest
unfolding merge_value
merge_fields-field base merged key value rest = refl

get-round :
    (k : Text) (base merged : Fields) (key : Text) (value : Value)
    → get k (round base merged key value) ≡ (
        if text_eq key k
        then looked_up k (get k base) (get k merged) (some value)
        else get k merged)
get-round k base merged key value = elim (Bool-cases (text_eq key k)) [
  | inl e ↦ rw (text_eq→eq key k e) (
      rw (text_eq_refl k) (elim (Bool-cases (is_internal_key k)) [
        | inl i ↦ rw i refl
        | inr n ↦
            rw n
              (rw (get-put k k (assigned k (get k base) value) merged) (rw (text_eq_refl k) refl))
      ]))
  | inr m ↦ rw m (elim (Bool-cases (is_internal_key key)) [
    | inl i ↦ rw i refl
    | inr n ↦ rw n (rw (get-put k key (assigned key (get key base) value) merged) (rw m refl))
  ])
]

get-merge_fields :
    (k : Text) (base merged override : Fields)
    → UniqueKeys override
    → get k (merge_fields base merged override)
      ≡ looked_up k (get k base) (get k merged) (get k override)
unfolding get
get-merge_fields k base merged end u = rw (merge_fields-end base merged) refl
get-merge_fields k base merged (field key value rest) (fresh, u) =
    let ih = get-merge_fields k base (round base merged key value) rest u in
    rw (merge_fields-field base merged key value rest) (
      rw ih (
        rw (get-round k base merged key value) (elim (Bool-cases (text_eq key k)) [
          | inl e ↦ rw (text_eq→eq key k e) (
              rw (text_eq_refl k) (
                rw
                  (get-has_key k rest
                    (subst (λ x. has_key x rest ≡ false) (text_eq→eq key k e) fresh))
                  refl))
          | inr n ↦ rw n refl
        ])))

get-merged :
    (k : Text) (base override : Fields)
    → UniqueKeys override
    → get k (merge_mappings base override) ≡ merged_at k (get k base) (get k override)
unfolding merge_mappings
get-merged k base override u =
    rw (get-merge_fields k base base override u) (elim (Option-cases (get k override)) [
      | inl e ↦ rw e refl
      | inr (v, e) ↦
          rw e (elim (Option-cases (get k base)) [ inl b ↦ rw b refl | inr (old, b) ↦ rw b refl ])
    ])

-- The keys that the parser injects.
abbrev pub injected : List Text
injected =
    codes "__docker_file"
    ∷ codes "__compose_files"
    ∷ codes "__start_line__"
    ∷ codes "__end_line__"
    ∷ codes "is_override"
    ∷ []

-- The keys whose value an override replaces whole.
abbrev pub replaced : List Text
replaced = codes "command" ∷ codes "entrypoint" ∷ codes "env_file" ∷ codes "healthcheck" ∷ []

abbrev pub one_of : List Text → Text → Bool
one_of keys key = any (text_eq key) keys

-- The items that the base lacks.
unfoldable pub lacking : Items → Items → Items
lacking base nil = nil
lacking base (item v items) =
    let rest = lacking base items in if is_item v base then rest else item v rest

-- Two values under a key that no override replaces whole: two mappings are merged, the items that the
-- base lacks stand behind those of the base, and of other values the override's stays.
abbrev pub joined : Value → Value → Value
joined (mapping base) (mapping override) = mapping (merge_mappings base override)
joined (sequence base) (sequence override) = sequence (append_items base (lacking base override))
joined base override = override

-- The value under a key, from what the base and the override have there.
abbrev pub value_at : Text → Option Value → Option Value → Option Value
value_at key base none = base
value_at key none (some value) = if one_of injected key then none else some value
value_at key (some old) (some value) =
    if one_of injected key
    then some old
    else some (if one_of replaced key then value else joined old value)

append_items-nil : (items : Items) → append_items items nil ≡ items
unfolding append_items
append_items-nil nil = refl
append_items-nil (item v items) = ap (item v) (append_items-nil items)

append_items_assoc :
    (a b c : Items) → append_items (append_items a b) c ≡ append_items a (append_items b c)
unfolding append_items
append_items_assoc nil b c = refl
append_items_assoc (item v a) b c = ap (item v) (append_items_assoc a b c)

extend_items-lacking :
    (base merged items : Items)
    → extend_items base merged items ≡ append_items merged (lacking base items)
unfolding extend_items lacking append_items
extend_items-lacking base merged nil = sym (append_items-nil merged)
extend_items-lacking base merged (item v items) = elim (Bool-cases (is_item v base)) [
  | inl e ↦ rw e (extend_items-lacking base merged items)
  | inr n ↦ rw n (
      extend_items-lacking base (append_items merged (item v nil)) items
      ∙ append_items_assoc merged (item v nil) (lacking base items))
]

is_internal_key_lem : (key : Text) → is_internal_key key ≡ one_of injected key
unfolding is_internal_key
is_internal_key_lem key = ground arith

is_replaced_key_lem : (key : Text) → is_replaced_key key ≡ one_of replaced key
unfolding is_replaced_key
is_replaced_key_lem key = ground arith

merge_value_lem :
    (key : Text) (old value : Value)
    → merge_value key old value ≡ (if is_replaced_key key then value else joined old value)
unfolding merge_value merge_mappings
merge_value_lem key null value = ground arith
merge_value_lem key (flag b) value = ground arith
merge_value_lem key (number n) value = ground arith
merge_value_lem key (text t) value = ground arith
merge_value_lem key (sequence old) null = ground arith
merge_value_lem key (sequence old) (flag b) = ground arith
merge_value_lem key (sequence old) (number n) = ground arith
merge_value_lem key (sequence old) (text t) = ground arith
merge_value_lem key (sequence old) (sequence items) =
    ground (arith, extend_items-lacking old old items)
merge_value_lem key (sequence old) (mapping fields) = ground arith
merge_value_lem key (mapping old) null = ground arith
merge_value_lem key (mapping old) (flag b) = ground arith
merge_value_lem key (mapping old) (number n) = ground arith
merge_value_lem key (mapping old) (text t) = ground arith
merge_value_lem key (mapping old) (sequence items) = ground arith
merge_value_lem key (mapping old) (mapping fields) = ground arith

merged_at-value_at :
    (key : Text) (base override : Option Value)
    → merged_at key base override ≡ value_at key base override
merged_at-value_at key base none = refl
merged_at-value_at key none (some value) = rw (is_internal_key_lem key) refl
merged_at-value_at key (some old) (some value) =
    rw (is_internal_key_lem key)
      (rw (merge_value_lem key old value) (rw (is_replaced_key_lem key) refl))

-- A key of the merged mapping holds what the base has there where the override lacks the key or the
-- parser injects it, what the override has where the base lacks the key or the key is command,
-- entrypoint, env_file or healthcheck, and elsewhere the two values joined: mappings merged key by
-- key, the items that the base lacks put behind those of the base, and otherwise the override's value.
-- The override has no key twice.
pub get-merge_mappings :
    (k : Text) (base override : Fields)
    → UniqueKeys override
    → get k (merge_mappings base override) ≡ value_at k (get k base) (get k override)
get-merge_mappings k base override u =
    get-merged k base override u ∙ merged_at-value_at k (get k base) (get k override)
