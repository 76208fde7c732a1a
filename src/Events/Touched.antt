-- ===== src/Events/Touched.antt =====
-- Which scans a push queues.
use greensecops.Common.{
  ℕ, ◌≡◌, ◌⊎◌, ◌↔◌, inl, inr, refl, Bool, true, false, List, [], ◌∷◌, ◌++◌, Memᴰ, Option, none,
  some, not, ◌==◌, ◌&&◌, any, Bool-cases, filter, any-mem, mem-any, mem-filter, mem-keep, arith,
  Text, codes, text_eq, text_eq_refl, text_eq→eq, starts_with-append, starts_with→append,
  is_empty_text,
}
use greensecops.Events.Store.{Repository, ScanTarget, Task}
use greensecops.Events.Scans.{is_under, enabled_targets, skips_root, skips_target, scan_tasks}

-- The path is the directory, or lies below it.
abbrev pub Under : Text → Text → Type 0
Under root path = (path ≡ root) ⊎ ((rest : Text) × (path ≡ (root ++ codes "/") ++ rest))

pub is_under-Under : (root path : Text) → (is_under root path ≡ true) ↔ Under root path
unfolding is_under
is_under-Under root path = (to, from)
  where
    to : is_under root path ≡ true → Under root path
    to h = elim (Bool-cases (text_eq path root)) [
      | inl e ↦ inl (text_eq→eq path root e)
      | inr e ↦ inr (starts_with→append (root ++ codes "/") path (ground arith))
    ]

    from : Under root path → is_under root path ≡ true
    from (inl e) = rw e (ground (arith, text_eq_refl root))
    from (inr (rest, e)) = rw e (ground (arith, starts_with-append (root ++ codes "/") rest))

-- What a push is known to have touched of a target; `none` is unknown.
abbrev pub Touches : Option (List Text) → ScanTarget → Type 0
Touches none target = Unit
Touches (some paths) target = (path : Text) × Memᴰ path paths × Under target.root_path path

any_under :
    (target : ScanTarget) (paths : List Text)
    → (any (is_under target.root_path) paths ≡ true) ↔ Touches (some paths) target
any_under target paths = (to, from)
  where
    to : any (is_under target.root_path) paths ≡ true → Touches (some paths) target
    to h =
        let (path, m, e) = any-mem (is_under target.root_path) paths h in
        (path, m, (is_under-Under target.root_path path).0 e)

    from : Touches (some paths) target → any (is_under target.root_path) paths ≡ true
    from (path, m, u) =
        mem-any (is_under target.root_path) paths m ((is_under-Under target.root_path path).1 u)

pub skips_root-Touches :
    (changed : Option (List Text)) (target : ScanTarget)
    → (skips_root changed target ≡ false) ↔ Touches changed target
unfolding skips_root
skips_root-Touches none target = (λ _. tt, λ _. refl)
skips_root-Touches (some paths) target = (
  λ h. (any_under target paths).0 (ground arith),
  λ u. ground (arith, (any_under target paths).1 u),
)

pub skips_target-Touches :
    (changed : Option (List Text)) (target : ScanTarget)
    → (skips_target changed target ≡ false) ↔ ((target.root_path ≡ []) ⊎ Touches changed target)
unfolding skips_target is_empty_text
skips_target-Touches changed target = (to changed, from changed)
  where
    empty : (root : Text) → is_empty_text root ≡ true → root ≡ []
    empty [] h = refl
    empty (_ ∷ _) h = cc

    to :
        (changed : Option (List Text))
        → skips_target changed target ≡ false
        → (target.root_path ≡ []) ⊎ Touches changed target
    to none h = inr tt
    to (some paths) h = elim (Bool-cases (is_empty_text target.root_path)) [
      | inl e ↦ inl (empty target.root_path e)
      | inr e ↦ inr ((any_under target paths).0 (ground arith))
    ]

    from :
        (changed : Option (List Text))
        → (target.root_path ≡ []) ⊎ Touches changed target
        → skips_target changed target ≡ false
    from none h = refl
    from (some paths) (inl e) = ground (arith, e)
    from (some paths) (inr u) = ground (arith, (any_under target paths).1 u)

-- The task belongs to an enabled target of the repository that the loop does not skip.
abbrev pub IsTaskOf :
    (ScanTarget → Type 0) → (ℕ → Task) → Repository → List ScanTarget → Task → Type 0
IsTaskOf Wanted run repo targets task =
    (target : ScanTarget) × Memᴰ target targets
    × (target.repo_id ≡ repo.id)
    × (target.enabled ≡ true)
    × Wanted target
    × (task ≡ run target.id)

mem-scan_tasks :
    (skips : ScanTarget → Bool) (run : ℕ → Task) (task : Task) (targets : List ScanTarget)
    → Memᴰ task (scan_tasks skips run targets) ↔ (
        (target : ScanTarget) × Memᴰ target targets
        × (skips target ≡ false)
        × (task ≡ run target.id))
unfolding scan_tasks
mem-scan_tasks skips run task [] = (λ m. elim m [ ], λ h. elim h.1 [ ])
mem-scan_tasks skips run task (t ∷ ts) =
    (to (mem-scan_tasks skips run task ts).0, from (mem-scan_tasks skips run task ts).1)
  where
    to :
        (Memᴰ task (scan_tasks skips run ts)
          → (target : ScanTarget) × Memᴰ target ts
            × (skips target ≡ false)
            × (task ≡ run target.id))
        → Memᴰ task (scan_tasks skips run (t ∷ ts))
        → (target : ScanTarget) × Memᴰ target (t ∷ ts)
          × (skips target ≡ false)
          × (task ≡ run target.id)
    to ih m = elim ((mem-keep (not (skips t)) (run t.id) (scan_tasks skips run ts)).0 m) [
      | inl h ↦ (t, Memᴰ.head refl, ground arith, h.1)
      | inr r ↦ let (target, m', s, e) = ih r in (target, Memᴰ.tail m', s, e)
    ]

    from :
        ((target : ScanTarget) × Memᴰ target ts × (skips target ≡ false) × (task ≡ run target.id)
          → Memᴰ task (scan_tasks skips run ts))
        → (target : ScanTarget) × Memᴰ target (t ∷ ts)
          × (skips target ≡ false)
          × (task ≡ run target.id)
        → Memᴰ task (scan_tasks skips run (t ∷ ts))
    from ih (target, Memᴰ.head e, s, h) =
        (mem-keep (not (skips t)) (run t.id) (scan_tasks skips run ts)).1
          (inl (rw (← e) (ground arith), rw (← e) h))
    from ih (target, Memᴰ.tail m, s, h) =
        (mem-keep (not (skips t)) (run t.id) (scan_tasks skips run ts)).1
          (inr (ih (target, m, s, h)))

module _ (skips : ScanTarget → Bool) (Wanted : ScanTarget → Type 0)
    (meets : (target : ScanTarget) → (skips target ≡ false) ↔ Wanted target) where
  pub mem-scan_tasks_enabled :
      (run : ℕ → Task) (repo : Repository) (targets : List ScanTarget) (task : Task)
      → Memᴰ task (scan_tasks skips run (enabled_targets repo targets))
        ↔ IsTaskOf Wanted run repo targets task
  unfolding enabled_targets
  mem-scan_tasks_enabled run repo targets task = (to, from)
    where
      wanted : ScanTarget → Bool
      wanted target = target.repo_id == repo.id && target.enabled

      to :
          Memᴰ task (scan_tasks skips run (filter wanted targets))
          → IsTaskOf Wanted run repo targets task
      to m =
          let (target, kept, s, e) = (mem-scan_tasks skips run task (filter wanted targets)).0 m in
          let (there, test) = (mem-filter wanted targets).0 kept in
          (target, there, ground arith, ground arith, (meets target).0 s, e)

      from :
          IsTaskOf Wanted run repo targets task
          → Memᴰ task (scan_tasks skips run (filter wanted targets))
      from (target, there, of, on, w, e) =
          (mem-scan_tasks skips run task (filter wanted targets)).1
            (target, (mem-filter wanted targets).1 (there, ground arith), (meets target).1 w, e)
