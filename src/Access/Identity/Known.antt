-- ===== src/Access/Identity/Known.antt =====
-- What a user is, read off the tables.
use migration_planner.Prelude.{
  ◌≡◌, refl, sym, ap, ◌∙◌, Option, none, some, List, [], ◌∷◌, String, str_eq, arith, filter, find,
  Bool, true, false, ◌&&◌, if◌then◌else◌, eq_iff,
}
use migration_planner.Access.Model.{
  User, Group, Member, PartnerCustomer, Relationship, RequestStatus, pending, accepted, rejected,
  cancelled, same_status,
}
use migration_planner.Access.Store.{
  ok, ok_injective, Db, World, ◌>>=◌, pure, catch, query, statement,
}
use migration_planner.Access.Store.Effects.{Reads, Reads-query, Reads-bind}
use migration_planner.Access.Requests.{matches, by_username, by_status, list_requests, get_member}
use migration_planner.Access.Identity.{
  Identity, IdentityKind, regular, partner, admin, customer, regular_identity, member_identity,
  no_member, identify, get_identity,
}

-- The member with the group.
unfoldable pub member_in : Db → String → Option (Member × Option Group)
member_in db username = elim (find (λ (m : Member). str_eq m.username username) db.members) [
  | none ↦ none
  | some m ↦ some (m, find (λ (g : Group). str_eq g.id m.group_id) db.groups)
]

abbrev identity_from : User → List PartnerCustomer → Option (Member × Option Group) → Identity
identity_from user (pc ∷ rest) found = record {
  username = user.username;
  kind = customer;
  group_id = none;
  partner_id = some pc.partner_id;
}
identity_from user [] found = member_identity user found

abbrev is_accepted : RequestStatus → Bool
is_accepted accepted = true
is_accepted _ = false

-- The first accepted request of the user.
abbrev accepted_request : Db → String → Option PartnerCustomer
accepted_request db username =
    find (λ (pc : PartnerCustomer). is_accepted pc.request_status && str_eq pc.username username)
      db.requests

-- Who belongs to a group is what its kind says; who belongs to none is a regular user.
abbrev kind_in : Option Group → IdentityKind
kind_in none = regular
kind_in (some g) =
    if str_eq g.kind "partner" then partner else if str_eq g.kind "admin" then admin else regular

-- Only an admin and a partner's member have a group.
abbrev standing : String → String → IdentityKind → Identity
standing username group_id admin = record {
  username = username;
  kind = admin;
  group_id = some group_id;
  partner_id = none;
}
standing username group_id partner = record {
  username = username;
  kind = partner;
  group_id = some group_id;
  partner_id = none;
}
standing username group_id _ = record {
  username = username;
  kind = regular;
  group_id = none;
  partner_id = none;
}

abbrev as_member : String → List Group → Option Member → Identity
as_member username groups none = standing username "" regular
as_member username groups (some m) =
    standing username m.group_id (kind_in (find (λ (g : Group). str_eq g.id m.group_id) groups))

-- A user with an accepted request is a customer of that partner, whatever else they are.
abbrev known_as : String → Option PartnerCustomer → Identity → Identity
known_as username none member = member
known_as username (some pc) member = record {
  username = username;
  kind = customer;
  group_id = none;
  partner_id = some pc.partner_id;
}

-- What the tables say of a user.
unfoldable pub identity_of : Db → User → Identity
identity_of db user = known_as user.username (accepted_request db user.username) (
    as_member user.username db.groups
      (find (λ (m : Member). str_eq m.username user.username) db.members))

abbrev accepted_of : User → Db → List PartnerCustomer
accepted_of user db =
    filter (matches (by_username user.username ∷ by_status accepted ∷ [])) db.requests

accepted_status : (s : RequestStatus) → same_status s accepted ≡ is_accepted s
accepted_status pending = refl
accepted_status accepted = refl
accepted_status rejected = refl
accepted_status cancelled = refl

known_by_request :
    (user : User) (rows : List PartnerCustomer) (found : Option (Member × Option Group))
    → identity_from user
        (filter (matches (by_username user.username ∷ by_status accepted ∷ [])) rows)
        found
      ≡ known_as user.username
          (find
            (λ (pc : PartnerCustomer).
              is_accepted pc.request_status && str_eq pc.username user.username)
            rows)
          (member_identity user found)
known_by_request user [] found = refl
known_by_request user (pc ∷ rows) found =
    ground (arith, accepted_status pc.request_status, known_by_request user rows found)

in_kind :
    (is_partner is_admin : Bool) (user : User) (m : Member)
    → m.username ≡ user.username
    → let role : IdentityKind → Identity = λ kind. record {
      username = m.username;
      kind = kind;
      group_id = some m.group_id;
      partner_id = none;
    } in
      (if is_partner then role partner else if is_admin then role admin else regular_identity user)
      ≡ standing user.username m.group_id
          (if is_partner then partner else if is_admin then admin else regular)
in_kind true is_admin user m same = ap (λ u. standing u m.group_id partner) same
in_kind false true user m same = ap (λ u. standing u m.group_id admin) same
in_kind false false user m same = refl

in_group :
    (user : User) (m : Member) (g : Option Group)
    → m.username ≡ user.username
    → member_identity user (some (m, g)) ≡ standing user.username m.group_id (kind_in g)
in_group user m none same = refl
in_group user m (some g) same =
    in_kind (str_eq g.kind "partner") (str_eq g.kind "admin") user m same

find_username :
    (username : String) (rows : List Member) (m : Member)
    → find (λ (m : Member). str_eq m.username username) rows ≡ some m
    → m.username ≡ username
find_username username [] m h = ground arith
find_username username (r ∷ rows) m h =
    ground (arith, find_username username rows m, eq_iff r.username username)

known_member :
    (user : User) (groups : List Group) (found : Option Member)
    → ((m : Member) → found ≡ some m → m.username ≡ user.username)
    → member_identity user (elim found [
      | none ↦ none
      | some m ↦ some (m, find (λ (g : Group). str_eq g.id m.group_id) groups)
    ])
      ≡ as_member user.username groups found
known_member user groups none named = refl
known_member user groups (some m) named =
    in_group user m (find (λ (g : Group). str_eq g.id m.group_id) groups) (named m refl)

-- What the code makes of the rows that it reads is what they say.
identity_from-identity_of :
    (db : Db) (user : User)
    → identity_from user (accepted_of user db) (member_in db user.username) ≡ identity_of db user
unfolding identity_of member_in
identity_from-identity_of db user =
    known_by_request user db.requests (member_in db user.username)
    ∙ ap (known_as user.username (accepted_request db user.username)) (
        known_member user db.groups
          (find (λ (m : Member). str_eq m.username user.username) db.members)
          (find_username user.username db.members))

find_member-Reads :
    (username : String)
    → Reads
        (λ db found. found ≡ member_in db username)
        (catch (get_member username >>= λ m. pure (some m)) no_member)
unfolding get_member query statement member_in
find_member-Reads username w = (ground arith, λ a h. ground arith)

identify-Reads :
    (user : User) (rows : List PartnerCustomer)
    → Reads
        (λ db identity. identity ≡ identity_from user rows (member_in db user.username))
        (identify user rows)
identify-Reads user (pc ∷ rest) w = (refl, λ a h. ground arith)
identify-Reads user [] w =
    Reads-bind (λ db found. found ≡ member_in db user.username)
      (λ db identity. identity ≡ member_identity user (member_in db user.username))
      (catch (get_member user.username >>= λ m. pure (some m)) no_member)
      (λ found. pure (member_identity user found)) (find_member-Reads user.username)
      (λ found w. (refl, λ a h same. ground arith)) w

get_identity-Reads :
    (user : User)
    → Reads
        (λ db identity.
          identity ≡ identity_from user (accepted_of user db) (member_in db user.username))
        (get_identity user)
unfolding get_identity list_requests
get_identity-Reads user =
    Reads-bind (λ db rows. ok (accepted_of user db) ≡ ok rows)
      (λ db identity.
        identity ≡ identity_from user (accepted_of user db) (member_in db user.username))
      (list_requests (by_username user.username ∷ by_status accepted ∷ [])) (identify user)
      (Reads-query (λ db. ok (accepted_of user db)))
      λ rows w.
        let (same, known) = identify-Reads user rows w in
        (
          same,
          λ identity h listed.
              known identity h
              ∙ ap (λ rs. identity_from user rs (member_in w.db user.username))
                  (sym (ok_injective _ rows listed)),
        )

-- GetIdentity changes no table, and one that succeeds gives what the tables say of the user: the
-- customer of the partner of their first accepted request; without one an admin with their group
-- or a partner's member with theirs, by the kind of the group; or else a regular user, without a
-- group.
pub get_identity-identity_of :
    (user : User) (w : World)
    → ((get_identity user w).1.db ≡ w.db)
      × ((identity : Identity)
          → (get_identity user w).0 ≡ ok identity
          → identity ≡ identity_of w.db user)
get_identity-identity_of user w =
    let (same, known) = get_identity-Reads user w in
    (same, λ identity h. known identity h ∙ identity_from-identity_of w.db user)

-- The relations do not matter.
pub identity_of-relations :
    (db : Db) (rows : List Relationship) (user : User)
    → identity_of (record db { relationships = rows }) user ≡ identity_of db user
unfolding identity_of
identity_of-relations db rows user = refl
