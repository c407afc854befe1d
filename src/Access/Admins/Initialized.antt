-- ===== src/Access/Admins/Initialized.antt =====
-- What Initialize leaves.
use mathlib.Core.Path.{subst}
use migration_planner.Prelude.{
  ℕ, suc, ◌≡◌, refl, sym, ap, ◌∙◌, String, Bool, true, ◌||◌, Option, List, [], ◌∷◌, ◌++◌, arith,
  str_eq, any, any-append, any-find, All, if◌then◌else◌,
}
use text.Mathlib.TextPositions.{eq_refl}
use migration_planner.Access.Model.{Group, Member}
use migration_planner.Access.Store.{
  Result, ok, err, Db, World, pure, statement, query, transaction_ok, >>=_ok, statement_run,
}
use migration_planner.Access.Store.Effects.{
  Effects, Same, Same-query, Effects-statement, Effects-bind,
}
use migration_planner.Access.Requests.{get_member}
use migration_planner.Access.Accounts.{no_id, create_group_row, create_member_row, insert_member}
use migration_planner.Access.Admins.{
  GroupQueryFilter, by_name, by_kind, list_groups, delete_groups, admin_group_row, AdminMember,
  AdminGroup, new_member, add_unless_found, add_admin, add_admins, initialize_body, initialize,
}

-- Some member has the username.
abbrev pub is_enrolled : Db → AdminMember → Bool
is_enrolled db m = any (λ (r : Member). str_eq r.username m.username) db.members

-- Who is enrolled stays enrolled.
abbrev Grows : Db → Db → Type 0
Grows db db' = (m : AdminMember) → is_enrolled db m ≡ true → is_enrolled db' m ≡ true

found_enrolled :
    (m : AdminMember) (w : World) (r : Member × Option Group)
    → (get_member m.username w).0 ≡ ok r
    → is_enrolled w.db m ≡ true
unfolding get_member query statement
found_enrolled m w r h =
    ground (arith, any-find (λ (r : Member). str_eq r.username m.username) w.db.members)

get_member-Same : (username : String) → Effects Same (get_member username)
unfolding get_member
get_member-Same username = Same-query _

insert_member_ok :
    (n : Member) (db db' : Db) (r : Member)
    → insert_member n db ≡ ok (r, db')
    → db'.members ≡ db.members ++ n ∷ []
insert_member_ok n db db' r h = ground arith

appended :
    (n : Member) (m : AdminMember) (rows rows' : List Member)
    → rows' ≡ rows ++ n ∷ []
    → any (λ (r : Member). str_eq r.username m.username) rows'
      ≡ any (λ (r : Member). str_eq r.username m.username) rows || str_eq n.username m.username
appended n m rows rows' h =
    let named = λ (r : Member). str_eq r.username m.username in
    ap (any named) h ∙ any-append named rows (n ∷ []) ∙ ground arith

create_member_row-Grows :
    (new_id : String) (n : Member) → Effects Grows (create_member_row new_id n)
create_member_row-Grows new_id n =
    Effects-statement Grows (λ db m h. h) _
      λ db db' a h m k.
        let n' = if str_eq n.id no_id then record n { id = new_id } else n in
        appended n' m db.members db'.members (insert_member_ok n' db db' a h) ∙ ground arith

created_enrolled :
    (new_id group_id : String) (m : AdminMember) (w : World) (r : Member)
    → (create_member_row new_id (new_member group_id m) w).0 ≡ ok r
    → is_enrolled (create_member_row new_id (new_member group_id m) w).1.db m ≡ true
created_enrolled new_id group_id m w r h =
    let n : Member = record (new_member group_id m) { id = new_id } in
    let (db, ran, left) = statement_run (insert_member n) w r h in
    ap (λ db. is_enrolled db m) left
    ∙ appended n m w.db.members db.members (insert_member_ok n w.db db r ran)
    ∙ ground (arith, eq_refl m.username)

after_lookup :
    (new_id group_id : String) (m : AdminMember) (o : Result (Member × Option Group) × World)
    → ((r : Member × Option Group) → o.0 ≡ ok r → is_enrolled o.1.db m ≡ true)
    → (add_unless_found new_id group_id m o.0 o.1).0 ≡ ok tt
    → is_enrolled (add_unless_found new_id group_id m o.0 o.1).1.db m ≡ true
after_lookup new_id group_id m (ok r, w) known h = known r refl
after_lookup new_id group_id m (err e, w) known h =
    let create = create_member_row new_id (new_member group_id m) in
    let (r, made, next) = >>=_ok create (λ _. pure tt) w tt h in
    ap (λ o. is_enrolled o.1.db m) next ∙ created_enrolled new_id group_id m w r made

lookup-Grows :
    (new_id group_id : String) (m : AdminMember) (r : Result (Member × Option Group))
    → Effects Grows (add_unless_found new_id group_id m r)
lookup-Grows new_id group_id m (ok r) = λ w n h. h
lookup-Grows new_id group_id m (err e) =
    Effects-bind Grows (λ db n h. h) Grows (create_member_row new_id (new_member group_id m))
      (λ _. pure tt) (λ x y z f g n h. g n (f n h))
      (create_member_row-Grows new_id (new_member group_id m)) (λ _ w n h. h)

add_admin-Grows :
    (new_id group_id : String) (m : AdminMember) → Effects Grows (add_admin new_id group_id m)
add_admin-Grows new_id group_id m w n h =
    let (found, w') = get_member m.username w in
    lookup-Grows new_id group_id m found w' n
      (ap (λ db. is_enrolled db n) (get_member-Same m.username w) ∙ h)

add_admin_enrols :
    (new_id group_id : String) (m : AdminMember) (w : World)
    → (add_admin new_id group_id m w).0 ≡ ok tt
    → is_enrolled (add_admin new_id group_id m w).1.db m ≡ true
add_admin_enrols new_id group_id m w h =
    after_lookup new_id group_id m (get_member m.username w)
      (λ r found.
        ap (λ db. is_enrolled db m) (get_member-Same m.username w) ∙ found_enrolled m w r found)
      h

add_admins-Grows :
    (new_ids : ℕ → String) (n : ℕ) (group_id : String) (ms : List AdminMember)
    → Effects Grows (add_admins new_ids n group_id ms)
add_admins-Grows new_ids n group_id [] = λ w m h. h
add_admins-Grows new_ids n group_id (m ∷ ms) =
    Effects-bind Grows (λ db k h. h) Grows (add_admin (new_ids n) group_id m)
      (λ _. add_admins new_ids (suc n) group_id ms) (λ x y z f g k h. g k (f k h))
      (add_admin-Grows (new_ids n) group_id m) (λ _. add_admins-Grows new_ids (suc n) group_id ms)

add_admins_enrol :
    (new_ids : ℕ → String) (n : ℕ) (group_id : String) (ms : List AdminMember) (w : World)
    → (add_admins new_ids n group_id ms w).0 ≡ ok tt
    → All (λ m. is_enrolled (add_admins new_ids n group_id ms w).1.db m ≡ true) ms
add_admins_enrol new_ids n group_id [] w h = tt
add_admins_enrol new_ids n group_id (m ∷ ms) w h =
    let rest = add_admins new_ids (suc n) group_id ms in
    let (_, first, next) = >>=_ok (add_admin (new_ids n) group_id m) (λ _. rest) w tt h in
    let w₁ = (add_admin (new_ids n) group_id m w).1 in
    subst (λ o. All (λ k. is_enrolled o.1.db k ≡ true) (m ∷ ms)) (sym next)
      (
        add_admins-Grows new_ids (suc n) group_id ms w₁ m
            (add_admin_enrols (new_ids n) group_id m w first),
        add_admins_enrol new_ids (suc n) group_id ms w₁ (ap (λ o. o.0) (sym next) ∙ h),
      )

-- After an Initialize that succeeds every user of the admin group file is a member.
pub initialize-All :
    (ilike : String → String → Bool) (new_ids : ℕ → String) (admin_group : AdminGroup) (w : World)
    → (initialize ilike new_ids admin_group w).0 ≡ ok tt
    → All
        (λ m. is_enrolled (initialize ilike new_ids admin_group w).1.db m ≡ true)
        admin_group.members
unfolding initialize
initialize-All ilike new_ids admin_group w h =
    let tests : GroupQueryFilter = by_name ilike admin_group.name ∷ by_kind "admin" ∷ [] in
    let create = create_group_row (admin_group_row (new_ids 0) admin_group.name) in
    let (w₀, _, ran, kept) = transaction_ok (initialize_body ilike new_ids admin_group) w tt h in
    let (groups, _, next) = >>=_ok (list_groups tests) _ w₀ tt ran in
    let w₁ = (list_groups tests w₀).1 in
    let ran₁ = ap (λ o. o.0) (sym next) ∙ ran in
    let (_, _, next₁) = >>=_ok (delete_groups groups) _ w₁ tt ran₁ in
    let w₂ = (delete_groups groups w₁).1 in
    let ran₂ = ap (λ o. o.0) (sym next₁) ∙ ran₁ in
    let (group, _, next₂) =
      >>=_ok create (λ g. add_admins new_ids 1 g.id admin_group.members) w₂ tt ran₂ in
    subst (λ (db : Db). All (λ m. is_enrolled db m ≡ true) admin_group.members)
      (sym (kept ∙ ap (λ o. o.1.db) (next ∙ next₁ ∙ next₂)))
      (add_admins_enrol new_ids 1 group.id admin_group.members (create w₂).1
        (ap (λ o. o.0) (sym next₂) ∙ ran₂))
