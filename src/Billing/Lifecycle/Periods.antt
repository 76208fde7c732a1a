-- ===== src/Billing/Lifecycle/Periods.antt =====
-- The roll of the usage period, and the creation of a missing subscription.
use greensecops.Common.{
  lt→ltb, Bool-cases, ℕ, ◌≤◌, ◌<◌, ◌≡◌, inl, inr, refl, true, false, List, [], ◌∷◌, ◌++◌, Option,
  none, some, arith,
}
use greensecops.Billing.Store.{User, BillingSubscription, Session}
use greensecops.Billing.Calendar.{month_bounds}
use greensecops.Billing.Calendar.Windows.{month_bounds_hold, month_bounds_stable}
use greensecops.Billing.Lifecycle.{
  is_current, roll_period, find_subscription, get_subscription, insert_subscription, get_or_insert,
  arrive, get_or_create_subscription, new_subscription,
}

-- After the roll the period ends behind the present instant; a row that was already current is as it
-- was, and another has the calendar month as its period and its warning level cleared.
pub roll_period_lem :
    (now : ℕ) (sub : BillingSubscription)
    → let after = roll_period now sub in
      (is_current now after.period_end ≡ true)
      × (is_current now sub.period_end ≡ true → after ≡ sub)
      × (is_current now sub.period_end ≡ false
          → (after.period_start ≡ some (month_bounds now).0)
            × (after.period_end ≡ some (month_bounds now).1)
            × (after.quota_warning_percent ≡ 0))
unfolding roll_period
roll_period_lem now sub = elim (Bool-cases (is_current now sub.period_end)) [
  | inl current ↦ rw current (current, (λ _. refl), (λ stale. cc))
  | inr stale ↦ rw stale (
    lt→ltb now (month_bounds now).1 (month_bounds_hold now).1,
    (λ current. cc),
    (λ _. (refl, refl, refl)),
  )
]

roll_period_current :
    (now : ℕ) (sub : BillingSubscription)
    → is_current now sub.period_end ≡ true
    → roll_period now sub ≡ sub
unfolding roll_period
roll_period_current now sub h = rw h

roll_period_stale :
    (now : ℕ) (sub : BillingSubscription)
    → is_current now sub.period_end ≡ false
    → roll_period now sub ≡ record sub {
      period_start = some (month_bounds now).0;
      period_end = some (month_bounds now).1;
      quota_warning_percent = 0;
    }
unfolding roll_period
roll_period_stale now sub h = rw h

-- Every read of a stale row within one calendar month rolls it to the same row, whichever comes
-- first, and a read behind the roll leaves that row alone.
pub roll_period_agree :
    (now later : ℕ) (sub : BillingSubscription)
    → is_current now sub.period_end ≡ false
    → is_current later sub.period_end ≡ false
    → (month_bounds now).0 ≤ later
    → later < (month_bounds now).1
    → (roll_period later sub ≡ roll_period now sub)
      × (roll_period later (roll_period now sub) ≡ roll_period now sub)
roll_period_agree now later sub stale stale' lo hi =
    let same = month_bounds_stable now later lo hi in
    (
      rw (roll_period_stale now sub stale, roll_period_stale later sub stale', same) refl,
      roll_period_current later (roll_period now sub)
          (rw (roll_period_stale now sub stale) (lt→ltb later (month_bounds now).1 hi)),
    )

find_subscription-append :
    (user_id : ℕ) (ss : List BillingSubscription) (s : BillingSubscription)
    → find_subscription user_id ss ≡ none
    → s.user_id ≡ user_id
    → find_subscription user_id (ss ++ s ∷ []) ≡ some s
unfolding find_subscription
find_subscription-append user_id [] s h e = ground arith
find_subscription-append user_id (x ∷ ss) s h e =
    ground (arith, find_subscription-append user_id ss s)

pub found_unchanged :
    (other : Option BillingSubscription) (new_id : ℕ) (session : Session) (user : User)
    (sub : BillingSubscription)
    → get_subscription session user.id ≡ some sub
    → get_or_create_subscription other new_id session user ≡ (session, sub)
unfolding get_or_create_subscription
found_unchanged other new_id session user sub h = rw h

insert_found :
    (new_id : ℕ) (session : Session) (user : User) (o : Option BillingSubscription)
    → get_subscription session user.id ≡ o
    → let (session', sub) = insert_subscription new_id user session o in
      get_subscription session' user.id ≡ some sub
unfolding insert_subscription get_subscription
insert_found new_id session user (some taken) h = h
insert_found new_id session user none h =
    find_subscription-append user.id session.subscriptions (new_subscription new_id user) h refl

get_or_insert_found :
    (other : Option BillingSubscription) (new_id : ℕ) (session : Session) (user : User)
    (o : Option BillingSubscription)
    → get_subscription session user.id ≡ o
    → let (session', sub) = get_or_insert other new_id session user o in
      get_subscription session' user.id ≡ some sub
unfolding get_or_insert
get_or_insert_found other new_id session user (some sub) h = h
get_or_insert_found other new_id session user none h =
    insert_found new_id (arrive other session) user
      (get_subscription (arrive other session) user.id) refl

get_or_create_found :
    (other : Option BillingSubscription) (new_id : ℕ) (session : Session) (user : User)
    → let (session', sub) = get_or_create_subscription other new_id session user in
      get_subscription session' user.id ≡ some sub
unfolding get_or_create_subscription
get_or_create_found other new_id session user =
    get_or_insert_found other new_id session user (get_subscription session user.id) refl

-- Whether or not another request inserts the row in between, the row that a user gets is the one that
-- the table then has for the user, and a second call returns it and changes nothing.
pub get_or_create_subscription_twice :
    (other other' : Option BillingSubscription) (new_id new_id' : ℕ) (session : Session)
    (user : User)
    → let (session', sub) = get_or_create_subscription other new_id session user in
      (get_subscription session' user.id ≡ some sub)
      × (get_or_create_subscription other' new_id' session' user ≡ (session', sub))
get_or_create_subscription_twice other other' new_id new_id' session user =
    let (session', sub) = get_or_create_subscription other new_id session user in
    let found = get_or_create_found other new_id session user in
    (found, found_unchanged other' new_id' session' user sub found)
