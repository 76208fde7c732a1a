-- ===== src/Common/Lists.antt =====
-- Lists over the native numbers, and predicates by recursion.
use Prim.Native.Nat.{ℕ, suc, ◌+◌}
use mathlib.Core.Bool.{Bool, true, false, ◌&&◌, ◌||◌}
use mathlib.Core.Path.{◌≡◌, refl, sym, subst}
use mathlib.Core.List.{List, [], ◌∷◌, ◌++◌, map, Memᴰ}
use mathlib.Core.Option.{Option, none, some}
use greensecops.Common.Tests.{if◌then◌else◌, Bool-cases}
use mathlib.Core.Logic.{◌⊎◌, inl, inr, ◌↔◌}
use native.Mathlib.Omega.{arith}

module _ {ℓ} {A : Type ℓ} where
  abbrev pub length : List A → ℕ
  length [] = 0
  length (_ ∷ xs) = suc (length xs)

  pub length-append : (xs ys : List A) → length (xs ++ ys) ≡ length xs + length ys
  length-append [] ys = omega arith
  length-append (_ ∷ xs) ys = omega (arith, length-append xs ys)

  abbrev pub All {κ} : (A → Type κ) → List A → Type κ
  All P [] = Unit
  All P (x ∷ xs) = P x × All P xs

  pub All-imp {κ μ} :
      (P : A → Type κ) (Q : A → Type μ) (xs : List A) → ((x : A) → P x → Q x) → All P xs → All Q xs
  All-imp P Q [] f h = tt
  All-imp P Q (x ∷ xs) f h = (f x h.0, All-imp P Q xs f h.1)

  pub All-mem {κ} : (P : A → Type κ) {a : A} (xs : List A) → All P xs → Memᴰ a xs → P a
  All-mem P [] h m = elim m [ ]
  All-mem P (x ∷ xs) h (Memᴰ.head e) = subst P (sym e) h.0
  All-mem P (x ∷ xs) h (Memᴰ.tail m) = All-mem P xs h.1 m

  -- Python's `any`, over a test.
  abbrev pub any : (A → Bool) → List A → Bool
  any p [] = false
  any p (x ∷ xs) = p x || any p xs

  unfoldable pub filter : (A → Bool) → List A → List A
  filter p [] = []
  filter p (x ∷ xs) = let rest = filter p xs in if p x then x ∷ rest else rest

  -- A write to the rows that a test selects, where they stand.
  unfoldable pub update : (A → Bool) → (A → A) → List A → List A
  update p f [] = []
  update p f (x ∷ xs) = (if p x then f x else x) ∷ update p f xs

  -- The first row that a test selects.
  unfoldable pub first : (A → Bool) → List A → Option A
  first p [] = none
  first p (x ∷ xs) = let rest = first p xs in if p x then some x else rest

  pub update-map :
      (p : A → Bool) (f g : A → A) (xs : List A)
      → ((x : A) → (if p x then f x else x) ≡ g x)
      → update p f xs ≡ map g xs
  unfolding update
  update-map p f g [] h = refl
  update-map p f g (x ∷ xs) h = cc (h x, update-map p f g xs h)

  pub update-update :
      (p : A → Bool) (f g : A → A) (xs : List A)
      → ((x : A) → p x ≡ true → p (f x) ≡ true)
      → update p g (update p f xs) ≡ update p (λ x. g (f x)) xs
  unfolding update
  update-update p f g [] h = refl
  update-update p f g (x ∷ xs) h = ground (arith, h x, update-update p f g xs h)

  pub update-ext :
      (p : A → Bool) (f g : A → A) (xs : List A)
      → ((x : A) → p x ≡ true → f x ≡ g x)
      → update p f xs ≡ update p g xs
  unfolding update
  update-ext p f g [] h = refl
  update-ext p f g (x ∷ xs) h = ground (arith, h x, update-ext p f g xs h)

  pub update_id :
      (p : A → Bool) (f : A → A) (xs : List A)
      → ((x : A) → p x ≡ true → f x ≡ x)
      → update p f xs ≡ xs
  unfolding update
  update_id p f [] h = refl
  update_id p f (x ∷ xs) h = ground (arith, h x, update_id p f xs h)

  pub any_ext : (f g : A → Bool) (xs : List A) → ((x : A) → f x ≡ g x) → any f xs ≡ any g xs
  any_ext f g [] h = refl
  any_ext f g (x ∷ xs) h = ground (arith, h x, any_ext f g xs h)

  -- A list may be filtered by a test that the rest of it passes.
  pub any-filter : (p f : A → Bool) (xs : List A) → any f (filter p xs) ≡ any (λ x. p x && f x) xs
  unfolding filter
  any-filter p f [] = refl
  any-filter p f (x ∷ xs) = ground (arith, any-filter p f xs)

  mem_of_append : {a : A} (xs ys : List A) → Memᴰ a (xs ++ ys) → Memᴰ a xs ⊎ Memᴰ a ys
  mem_of_append [] ys m = inr m
  mem_of_append (x ∷ xs) ys (Memᴰ.head e) = inl (Memᴰ.head e)
  mem_of_append (x ∷ xs) ys (Memᴰ.tail m) = elim (mem_of_append xs ys m) [
    | inl l ↦ inl (Memᴰ.tail l)
    | inr r ↦ inr r
  ]

  mem_append_left : {a : A} (xs ys : List A) → Memᴰ a xs → Memᴰ a (xs ++ ys)
  mem_append_left [] ys m = elim m [ ]
  mem_append_left (x ∷ xs) ys (Memᴰ.head e) = Memᴰ.head e
  mem_append_left (x ∷ xs) ys (Memᴰ.tail m) = Memᴰ.tail (mem_append_left xs ys m)

  mem_append_right : {a : A} (xs ys : List A) → Memᴰ a ys → Memᴰ a (xs ++ ys)
  mem_append_right [] ys m = m
  mem_append_right (x ∷ xs) ys m = Memᴰ.tail (mem_append_right xs ys m)

  mem_append_of : {a : A} (xs ys : List A) → Memᴰ a xs ⊎ Memᴰ a ys → Memᴰ a (xs ++ ys)
  mem_append_of xs ys (inl m) = mem_append_left xs ys m
  mem_append_of xs ys (inr m) = mem_append_right xs ys m

  pub mem-append : {a : A} (xs ys : List A) → Memᴰ a (xs ++ ys) ↔ (Memᴰ a xs ⊎ Memᴰ a ys)
  mem-append xs ys = (mem_of_append xs ys, mem_append_of xs ys)

  mem_of_keep :
      {a : A} (b : Bool) (x : A) (xs : List A)
      → Memᴰ a (if b then x ∷ xs else xs)
      → ((b ≡ true) × (a ≡ x)) ⊎ Memᴰ a xs
  mem_of_keep true x xs (Memᴰ.head e) = inl (refl, e)
  mem_of_keep true x xs (Memᴰ.tail m) = inr m
  mem_of_keep false x xs m = inr m

  mem_keep_of :
      {a : A} (b : Bool) (x : A) (xs : List A)
      → ((b ≡ true) × (a ≡ x)) ⊎ Memᴰ a xs
      → Memᴰ a (if b then x ∷ xs else xs)
  mem_keep_of true x xs (inl h) = Memᴰ.head h.1
  mem_keep_of true x xs (inr m) = Memᴰ.tail m
  mem_keep_of false x xs (inl h) = absurd (cc)
  mem_keep_of false x xs (inr m) = m

  -- An element that is put before a list where a test says so.
  pub mem-keep :
      {a : A} (b : Bool) (x : A) (xs : List A)
      → Memᴰ a (if b then x ∷ xs else xs) ↔ (((b ≡ true) × (a ≡ x)) ⊎ Memᴰ a xs)
  mem-keep b x xs = (mem_of_keep b x xs, mem_keep_of b x xs)

  pub any-mem : (p : A → Bool) (xs : List A) → any p xs ≡ true → (x : A) × Memᴰ x xs × (p x ≡ true)
  any-mem p [] h = absurd (cc)
  any-mem p (x ∷ xs) h = elim (Bool-cases (p x)) [
    | inl yes_ ↦ (x, Memᴰ.head refl, yes_)
    | inr no_ ↦ let (y, m, e) = any-mem p xs (ground arith) in (y, Memᴰ.tail m, e)
  ]

  pub mem-any : (p : A → Bool) {a : A} (xs : List A) → Memᴰ a xs → p a ≡ true → any p xs ≡ true
  mem-any p [] m h = elim m [ ]
  mem-any p (x ∷ xs) (Memᴰ.head e) h = ground arith
  mem-any p (x ∷ xs) (Memᴰ.tail m) h = ground (arith, mem-any p xs m h)

  pub mem-filter :
      (p : A → Bool) {a : A} (xs : List A) → Memᴰ a (filter p xs) ↔ (Memᴰ a xs × (p a ≡ true))
  unfolding filter
  mem-filter p [] = (λ m. elim m [ ], λ h. elim h.0 [ ])
  mem-filter p {a} (x ∷ xs) = (to (mem-filter p xs).0, from (mem-filter p xs).1)
    where
      to :
          (Memᴰ a (filter p xs) → Memᴰ a xs × (p a ≡ true))
          → Memᴰ a (filter p (x ∷ xs))
          → Memᴰ a (x ∷ xs) × (p a ≡ true)
      to ih m = elim ((mem-keep (p x) x (filter p xs)).0 m) [
        | inl h ↦ (Memᴰ.head h.1, rw h.1 h.0)
        | inr r ↦ (Memᴰ.tail (ih r).0, (ih r).1)
      ]

      from :
          (Memᴰ a xs × (p a ≡ true) → Memᴰ a (filter p xs))
          → Memᴰ a (x ∷ xs) × (p a ≡ true)
          → Memᴰ a (filter p (x ∷ xs))
      from ih (Memᴰ.head e, h) = (mem-keep (p x) x (filter p xs)).1 (inl (rw (← e) h, e))
      from ih (Memᴰ.tail m, h) = (mem-keep (p x) x (filter p xs)).1 (inr (ih (m, h)))

  pub All-append {κ} : (P : A → Type κ) (xs ys : List A) → All P xs → All P ys → All P (xs ++ ys)
  All-append P [] ys h k = k
  All-append P (x ∷ xs) ys h k = (h.0, All-append P xs ys h.1 k)

  pub map-update :
      (p : A → Bool) (f g h : A → A) (xs : List A)
      → ((x : A) → g (if p x then f x else x) ≡ h x)
      → map g (update p f xs) ≡ map h xs
  unfolding update
  map-update p f g h [] e = refl
  map-update p f g h (x ∷ xs) e = cc (e x, map-update p f g h xs e)

  pub map_id : (f : A → A) (xs : List A) → ((x : A) → f x ≡ x) → map f xs ≡ xs
  map_id f [] e = refl
  map_id f (x ∷ xs) e = cc (e x, map_id f xs e)

  pub map_ext {κ} :
      {B : Type κ} (f g : A → B) (xs : List A) → ((x : A) → f x ≡ g x) → map f xs ≡ map g xs
  map_ext f g [] e = refl
  map_ext f g (x ∷ xs) e = cc (e x, map_ext f g xs e)
