-- ===== src/Docker/Values.antt =====
-- The values of a parsed YAML document, with Python's operations on them: `==`, truth, `get` and an
-- assignment to a key. A mapping has its keys in the order of their insertion; a scalar that is no
-- natural number, such as a date, stands as a text.
use greensecops.Common.{
  ℕ, zero, suc, Bool, true, false, Option, none, some, ◌==◌, ◌&&◌, ◌||◌, not, if◌then◌else◌, Text,
  text_eq, is_empty_text,
}

mutual
  pub data Value : Type 0 where
    null : Value
    flag : Bool → Value
    number : ℕ → Value
    text : Text → Value
    sequence : Items → Value
    mapping : Fields → Value

  pub data Items : Type 0 where
    nil : Items
    item : Value → Items → Items

  pub data Fields : Type 0 where
    end : Fields
    field : Text → Value → Fields → Fields

unfoldable pub get : Text → Fields → Option Value
get key end = none
get key (field k v fields) = let rest = get key fields in if text_eq k key then some v else rest

-- `fields[key] = value`.
unfoldable pub put : Text → Value → Fields → Fields
put key value end = field key value end
put key value (field k v fields) =
    let rest = field k v (put key value fields) in
    if text_eq k key then field k value fields else rest

unfoldable pub has_key : Text → Fields → Bool
has_key key end = false
has_key key (field k v fields) = text_eq k key || has_key key fields

unfoldable pub count_fields : Fields → ℕ
count_fields end = 0
count_fields (field k v fields) = suc (count_fields fields)

unfoldable pub as_number : Bool → ℕ
as_number true = 1
as_number false = 0

-- The two flags are the same.
unfoldable pub flag_eq : Bool → Bool → Bool
flag_eq true b = b
flag_eq false b = not b

unfoldable mutual
  unfolding get

  -- `==`: a flag is a number, and a mapping is compared key by key, in whatever order.
  pub value_eq : Value → Value → Bool
  value_eq null null = true
  value_eq (flag a) (flag b) = flag_eq a b
  value_eq (flag a) (number b) = as_number a == b
  value_eq (number a) (flag b) = a == as_number b
  value_eq (number a) (number b) = a == b
  value_eq (text a) (text b) = text_eq a b
  value_eq (sequence a) (sequence b) = items_eq a b
  value_eq (mapping a) (mapping b) = count_fields a == count_fields b && fields_in a b
  value_eq _ _ = false

  pub items_eq : Items → Items → Bool
  items_eq nil nil = true
  items_eq (item a as_) (item b bs) = value_eq a b && items_eq as_ bs
  items_eq _ _ = false

  -- Every field of the first mapping is one of the second.
  pub fields_in : Fields → Fields → Bool
  fields_in end fields = true
  fields_in (field k v rest) fields =
      elim (get k fields) [ none ↦ false | some w ↦ value_eq v w ] && fields_in rest fields

-- `value in items`.
unfoldable pub is_item : Value → Items → Bool
unfolding value_eq
is_item value nil = false
is_item value (item v items) = value_eq v value || is_item value items

unfoldable pub append_items : Items → Items → Items
append_items nil more = more
append_items (item v items) more = item v (append_items items more)

-- The truth of a value.
unfoldable pub is_truthy : Value → Bool
is_truthy null = false
is_truthy (flag b) = b
is_truthy (number zero) = false
is_truthy (number (suc _)) = true
is_truthy (text t) = not (is_empty_text t)
is_truthy (sequence nil) = false
is_truthy (sequence (item _ _)) = true
is_truthy (mapping end) = false
is_truthy (mapping (field _ _ _)) = true
