-- ===== src/Access/AccountsGate/Refusals.antt =====
-- Who is refused.
use migration_planner.Prelude.{
  ◌≡◌, refl, ap, ◌∙◌, String, Bool, true, false, Option, arith, if◌then◌else◌,
}
use migration_planner.Access.Model.{User, Group, Member, Error, forbidden}
use migration_planner.Access.Store.{
  Result, ok, err, Db, World, M, bind_result, ◌>>=◌, ◌>>◌, pure, throw,
}
use migration_planner.Access.Identity.{Identity, admin, same_kind, get_identity}
use migration_planner.Access.Identity.Known.{identity_of, get_identity-identity_of}
use migration_planner.Access.Accounts
use migration_planner.Access.Admins
use migration_planner.Access.Admins.{GroupQueryFilter}
use migration_planner.Access.AccountsGate.{
  require_admin, list_groups, create_group, update_group, delete_group, get_member,
  list_group_members, create_member, update_group_member, remove_group_member,
}

-- The calls that only an admin may make.
pub data AdminCall : Type 0 where
  groups : GroupQueryFilter → AdminCall
  new_group change_group : Group → AdminCall
  drop_group member members : String → AdminCall
  new_member : (String → Option String) → String → Member → AdminCall
  change_member : String → String → Member → AdminCall
  drop_member : String → String → AdminCall

unfoldable pub admin_call : User → AdminCall → M (Unit {0})
admin_call user (groups tests) = list_groups user tests >> pure tt
admin_call user (new_group g) = create_group user g >> pure tt
admin_call user (change_group g) = update_group user g >> pure tt
admin_call user (drop_group id) = delete_group user id
admin_call user (member username) = get_member user username >> pure tt
admin_call user (members group_id) = list_group_members user group_id >> pure tt
admin_call user (new_member user_info new_id m) = create_member user_info new_id user m >> pure tt
admin_call user (change_member group_id username m) =
    update_group_member user group_id username m >> pure tt
admin_call user (drop_member group_id username) = remove_group_member user group_id username

-- A refusal: an error, and the tables as they were.
abbrev pub Refuses : {A : Type 0} → World → M A → Type 0
Refuses w m = (e : Error) × ((m w).0 ≡ err e) × ((m w).1.db ≡ w.db)

refused_if :
    (b : Bool) (w : World) → b ≡ false → Refuses w (λ w. (if b then pure tt else throw forbidden) w)
refused_if true w h = absurd (cc)
refused_if false w h = (forbidden, refl, refl)

after_identity :
    (before : Db) (o : Result Identity × World)
    → o.1.db ≡ before
    → ((identity : Identity) → o.0 ≡ ok identity → same_kind identity.kind admin ≡ false)
    → let o' =
        bind_result
          (λ identity. if same_kind identity.kind admin then pure tt else throw forbidden)
          o.0
          o.1 in
      (e : Error) × (o'.0 ≡ err e) × (o'.1.db ≡ before)
after_identity before (ok identity, w) same known =
    let (e, failed, kept) = refused_if (same_kind identity.kind admin) w (known identity refl) in
    (e, failed, kept ∙ same)
after_identity before (err e, w) same known = (e, refl, same)

require_admin-Refuses :
    (user : User) (w : World)
    → same_kind (identity_of w.db user).kind admin ≡ false
    → Refuses w (require_admin user)
unfolding require_admin
require_admin-Refuses user w h =
    let (same, known) = get_identity-identity_of user w in
    after_identity w.db (get_identity user w) same
      (λ identity found. ap (λ i. same_kind i.kind admin) (known identity found) ∙ h)

bind_failed :
    {A B : Type 0} (k : A → M B) (before : Db) (o : Result A × World) (e : Error)
    → o.0 ≡ err e
    → o.1.db ≡ before
    → ((bind_result k o.0 o.1).0 ≡ err e) × ((bind_result k o.0 o.1).1.db ≡ before)
bind_failed k before (ok a, w) e failed same = absurd (cc)
bind_failed k before (err x, w) e failed same = (ground arith, same)

bind-Refuses :
    {A B : Type 0} (m : M A) (k : A → M B) (w : World) → Refuses w m → Refuses w (m >>= k)
bind-Refuses m k w (e, failed, same) =
    let (fails, kept) = bind_failed k w.db (m w) e failed same in (e, fails, kept)

guarded-Refuses :
    {A : Type 0} (user : User) (inner : M A) (w : World)
    → same_kind (identity_of w.db user).kind admin ≡ false
    → Refuses w (require_admin user >> inner)
guarded-Refuses user inner w h =
    bind-Refuses (require_admin user) (λ _. inner) w (require_admin-Refuses user w h)

-- Nobody but an admin, by the tables, gets anything from these calls or changes anything: each of
-- them returns an error and leaves every table as it was.
pub admin_call-Refuses :
    (user : User) (call : AdminCall) (w : World)
    → same_kind (identity_of w.db user).kind admin ≡ false
    → Refuses w (admin_call user call)
unfolding admin_call list_groups create_group update_group delete_group get_member
    list_group_members create_member update_group_member remove_group_member
admin_call-Refuses user (groups tests) w h =
    bind-Refuses (list_groups user tests) (λ _. pure tt) w
      (guarded-Refuses user (Admins.list_groups tests) w h)
admin_call-Refuses user (new_group g) w h =
    bind-Refuses (create_group user g) (λ _. pure tt) w
      (guarded-Refuses user (Accounts.create_group g) w h)
admin_call-Refuses user (change_group g) w h =
    bind-Refuses (update_group user g) (λ _. pure tt) w
      (guarded-Refuses user (Admins.update_group g) w h)
admin_call-Refuses user (drop_group id) w h = guarded-Refuses user (Accounts.delete_group id) w h
admin_call-Refuses user (member username) w h =
    bind-Refuses (get_member user username) (λ _. pure tt) w
      (guarded-Refuses user (Accounts.find_member username) w h)
admin_call-Refuses user (members group_id) w h =
    bind-Refuses (list_group_members user group_id) (λ _. pure tt) w
      (guarded-Refuses user (Accounts.list_group_members group_id) w h)
admin_call-Refuses user (new_member user_info new_id m) w h =
    bind-Refuses (create_member user_info new_id user m) (λ _. pure tt) w
      (guarded-Refuses user (Accounts.create_member user_info new_id m) w h)
admin_call-Refuses user (change_member group_id username m) w h =
    bind-Refuses (update_group_member user group_id username m) (λ _. pure tt) w
      (guarded-Refuses user (Accounts.update_group_member group_id username m) w h)
admin_call-Refuses user (drop_member group_id username) w h =
    guarded-Refuses user (Accounts.remove_group_member group_id username) w h
