-- ===== src/Billing/Tasks/Outcome.antt =====
-- What a visit does to the table of subscriptions.
use greensecops.Common.{
  All, All-imp, Bool, Bool-cases, List, Memᴰ, [], ap, arith, false, inl, inr, refl, subst, sym,
  true, ◌==◌, ◌∷◌, ◌≡◌, ◌⊎◌,
}
use greensecops.StateMachines.Billing.{SubscriptionStatus}
use greensecops.Billing.Store.{BillingSubscription, replace_subscription}
use greensecops.Billing.Tasks.{Run, for_each, rows_in}

abbrev pub Rows : Type 0
Rows = List BillingSubscription

-- A visit either changes no row, and the row it visits is in order, or it writes that row in order.
abbrev pub Outcome : BillingSubscription → (BillingSubscription → Type 0) → Rows → Rows → Type 0
Outcome sub P ss ss' =
    ((ss' ≡ ss) × P sub)
    ⊎ ((row : BillingSubscription) × (row.id ≡ sub.id)
        × P row
        × (ss' ≡ replace_subscription row ss))

pub replace_twice :
    (r r' : BillingSubscription) (ss : Rows)
    → r.id ≡ r'.id
    → replace_subscription r' (replace_subscription r ss) ≡ replace_subscription r' ss
unfolding replace_subscription
replace_twice r r' [] h = refl
replace_twice r r' (s ∷ ss) h = ground (arith, replace_twice r r' ss h)

-- A row is in order or still to be visited.
abbrev Todo : (BillingSubscription → Type 0) → Rows → BillingSubscription → Type 0
Todo P todo s = P s ⊎ Memᴰ s todo

differ :
    (s r row : BillingSubscription) → row.id ≡ r.id → s.id ≡ r.id → (s.id == row.id) ≡ false → ⊥
differ s r row i e h = ground arith

All-replace :
    (P : BillingSubscription → Type 0) (r row : BillingSubscription) (rs ss : Rows)
    → row.id ≡ r.id
    → P row
    → All (Todo P (r ∷ rs)) ss
    → All (Todo P rs) (replace_subscription row ss)
unfolding replace_subscription
All-replace P r row rs [] i p a = tt
All-replace P r row rs (s ∷ ss) i p (now, later) = elim (Bool-cases (s.id == row.id)) [
  | inl same ↦ rw same (inl p, All-replace P r row rs ss i p later)
  | inr other ↦ rw other (keep now other, All-replace P r row rs ss i p later)
]
  where
    keep : Todo P (r ∷ rs) s → (s.id == row.id) ≡ false → Todo P rs s
    keep (inl done) other = inl done
    keep (inr (Memᴰ.head e)) other =
        absurd (differ s r row i (ap (λ (b : BillingSubscription). b.id) e) other)
    keep (inr (Memᴰ.tail m)) other = inr m

All-kept :
    (P : BillingSubscription → Type 0) (r : BillingSubscription) (rs ss : Rows)
    → P r
    → All (Todo P (r ∷ rs)) ss
    → All (Todo P rs) ss
All-kept P r rs [] p a = tt
All-kept P r rs (s ∷ ss) p (now, later) = (keep now, All-kept P r rs ss p later)
  where
    keep : Todo P (r ∷ rs) s → Todo P rs s
    keep (inl done) = inl done
    keep (inr (Memᴰ.head e)) = inl (subst P (sym e) p)
    keep (inr (Memᴰ.tail m)) = inr m

module _ (P : BillingSubscription → Type 0) (p : SubscriptionStatus → Bool)
    (body : Run → BillingSubscription → Run)
    (visits : (run : Run) (sub : BillingSubscription)
      → p sub.status ≡ true
      → Outcome sub P run.session.subscriptions (body run sub).session.subscriptions) where
  step :
      (run : Run) (r : BillingSubscription) (rs : Rows)
      → p r.status ≡ true
      → All (Todo P (r ∷ rs)) run.session.subscriptions
      → All (Todo P rs) (body run r).session.subscriptions
  step run r rs h a = elim (visits run r h) [
    | inl (same, done) ↦ rw same (All-kept P r rs run.session.subscriptions done a)
    | inr (row, i, done, wrote) ↦
        rw wrote (All-replace P r row rs run.session.subscriptions i done a)
  ]

  for_each-All :
      (rs : Rows) (run : Run)
      → All (λ r. p r.status ≡ true) rs
      → All (Todo P rs) run.session.subscriptions
      → All P (for_each body rs run).session.subscriptions
  unfolding for_each
  for_each-All [] run h a = All-imp (Todo P []) P run.session.subscriptions none_left a
    where
      none_left : (s : BillingSubscription) → Todo P [] s → P s
      none_left s (inl done) = done
      none_left s (inr m) = elim m [ ]
  for_each-All (r ∷ rs) run (h, hs) a = for_each-All rs (body run r) hs (step run r rs h a)

  -- After a loop over the rows of some statuses every row is in order, if the others were before.
  pub for_each-rows_in :
      (run : Run)
      → All (λ s. p s.status ≡ false → P s) run.session.subscriptions
      → All P (for_each body (rows_in p run.session.subscriptions) run).session.subscriptions
  unfolding rows_in
  for_each-rows_in run a =
      for_each-All (rows_in p run.session.subscriptions) run
        (rows_in-passes run.session.subscriptions)
        (to_do run.session.subscriptions run.session.subscriptions (λ s m. m) a)
    where
      rows_in-passes : (ss : Rows) → All (λ r. p r.status ≡ true) (rows_in p ss)
      rows_in-passes [] = tt
      rows_in-passes (s ∷ ss) = elim (Bool-cases (p s.status)) [
        | inl kept ↦ rw kept (kept, rows_in-passes ss)
        | inr out ↦ rw out (rows_in-passes ss)
      ]

      mem-rows_in :
          (ss : Rows) (s : BillingSubscription)
          → Memᴰ s ss
          → p s.status ≡ true
          → Memᴰ s (rows_in p ss)
      mem-rows_in [] s m h = elim m [ ]
      mem-rows_in (x ∷ ss) s (Memᴰ.head e) h =
          let kept : p x.status ≡ true = rw e at h in rw kept (Memᴰ.head e)
      mem-rows_in (x ∷ ss) s (Memᴰ.tail m) h =
          let ih = mem-rows_in ss s m h in
          elim (Bool-cases (p x.status)) [ inl kept ↦ rw kept (Memᴰ.tail ih) | inr out ↦ rw out ih ]

      to_do :
          (all ss : Rows)
          → ((s : BillingSubscription) → Memᴰ s ss → Memᴰ s all)
          → All (λ s. p s.status ≡ false → P s) ss
          → All (Todo P (rows_in p all)) ss
      to_do all [] inside a = tt
      to_do all (s ∷ ss) inside (now, later) = (
        elim (Bool-cases (p s.status)) [
          | inl kept ↦ inr (mem-rows_in all s (inside s (Memᴰ.head refl)) kept)
          | inr out ↦ inl (now out)
        ],
        to_do all ss (λ t m. inside t (Memᴰ.tail m)) later,
      )
