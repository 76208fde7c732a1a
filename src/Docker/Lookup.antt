-- ===== src/Docker/Lookup.antt =====
-- Reading a mapping after writing it.
use greensecops.Common.{
  ◌≡◌, refl, false, none, some, inl, inr, if◌then◌else◌, Bool-cases, arith, Text, text_eq,
  text_eq_refl, text_eq→eq,
}
use greensecops.Docker.Values.{Value, Fields, end, field, get, put, has_key}

-- No key twice, as in a Python mapping.
abbrev pub UniqueKeys : Fields → Type 0
UniqueKeys end = Unit
UniqueKeys (field k v fields) = (has_key k fields ≡ false) × UniqueKeys fields

pub text_eq_sym : (s t : Text) → text_eq s t ≡ text_eq t s
text_eq_sym s t = elim (Bool-cases (text_eq s t)) [
  | inl e ↦ rw (text_eq→eq s t e) refl
  | inr n ↦ elim (Bool-cases (text_eq t s)) [ inl e ↦ rw (text_eq→eq t s e) refl | inr m ↦ cc ]
]

pub get-put :
    (k key : Text) (value : Value) (fields : Fields)
    → get k (put key value fields) ≡ (if text_eq key k then some value else get k fields)
unfolding get put
get-put k key value end = refl
get-put k key value (field k2 v fields) = elim (Bool-cases (text_eq k2 key)) [
  | inl e ↦ rw (text_eq→eq k2 key e) (rw (text_eq_refl key) (ground (arith)))
  | inr n ↦ rw n (elim (Bool-cases (text_eq k2 k)) [
    | inl e ↦
        ground (arith, e, text_eq→eq k2 k e, get-put k key value fields, n, text_eq_sym key k2)
    | inr m ↦ ground (arith, m, get-put k key value fields)
  ])
]

pub get-has_key : (k : Text) (fields : Fields) → has_key k fields ≡ false → get k fields ≡ none
unfolding get has_key
get-has_key k end h = refl
get-has_key k (field k2 v fields) h = ground (arith, get-has_key k fields)

pub get-put_same :
    (key : Text) (value : Value) (fields : Fields) → get key (put key value fields) ≡ some value
get-put_same key value fields = rw (get-put key key value fields) (rw (text_eq_refl key) refl)
