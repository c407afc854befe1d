-- ===== src/Access/Partner/Rows.antt =====
-- The table of partner requests as a whole: its constraints, and how its rows may move.
use migration_planner.Prelude.{
  String, ◌≡◌, refl, sym, ap, ◌∙◌, inl, inr, Bool, true, false, ◌||◌, some, List, [], ◌∷◌, ◌++◌,
  map, arith, str_eq, eq_iff, Bool-cases, All, any, find, any-append,
}
use migration_planner.Access.Model.{
  RequestStatus, pending, accepted, rejected, cancelled, PartnerCustomer,
}
use migration_planner.Access.Requests.{by_id, update_row}

-- Which status may follow which: a pending request may get any, an accepted one may be cancelled,
-- and the two others are final.
abbrev pub may_become : RequestStatus → RequestStatus → Bool
may_become pending s = true
may_become accepted accepted = true
may_become accepted cancelled = true
may_become rejected rejected = true
may_become cancelled cancelled = true
may_become _ _ = false

pub may_become_refl : (s : RequestStatus) → may_become s s ≡ true
may_become_refl s = ground arith

pub may_become_trans :
    (s t u : RequestStatus) → may_become s t ≡ true → may_become t u ≡ true → may_become s u ≡ true
may_become_trans s t u h k = ground arith

-- What a row keeps, and how its status moves.
pub record Moved (r r' : PartnerCustomer) : Type 0 where
  pub same_id : r'.id ≡ r.id
  pub same_username : r'.username ≡ r.username
  pub same_org : r'.username_org_id ≡ r.username_org_id
  pub same_partner : r'.partner_id ≡ r.partner_id
  pub same_contact : r'.contact ≡ r.contact
  pub moves : may_become r.request_status r'.request_status ≡ true

-- No row is lost, each moves as it may, and new rows stand at the end.
abbrev pub Moves : List PartnerCustomer → List PartnerCustomer → Type 0
Moves [] ys = Unit
Moves (x ∷ xs) [] = ⊥
Moves (x ∷ xs) (y ∷ ys) = Moved x y × Moves xs ys

pub Moved-refl : (r : PartnerCustomer) → Moved r r
Moved-refl r = record {
  same_id = refl;
  same_username = refl;
  same_org = refl;
  same_partner = refl;
  same_contact = refl;
  moves = may_become_refl r.request_status;
}

pub Moves-refl : (xs : List PartnerCustomer) → Moves xs xs
Moves-refl [] = tt
Moves-refl (x ∷ xs) = (Moved-refl x, Moves-refl xs)

pub Moves-append : (xs ys : List PartnerCustomer) → Moves xs (xs ++ ys)
Moves-append [] ys = tt
Moves-append (x ∷ xs) ys = (Moved-refl x, Moves-append xs ys)

Moved-trans : (a b c : PartnerCustomer) → Moved a b → Moved b c → Moved a c
Moved-trans a b c h k = record {
  same_id = k.same_id ∙ h.same_id;
  same_username = k.same_username ∙ h.same_username;
  same_org = k.same_org ∙ h.same_org;
  same_partner = k.same_partner ∙ h.same_partner;
  same_contact = k.same_contact ∙ h.same_contact;
  moves = may_become_trans a.request_status b.request_status c.request_status h.moves k.moves;
}

pub Moves-trans : (xs ys zs : List PartnerCustomer) → Moves xs ys → Moves ys zs → Moves xs zs
Moves-trans [] ys zs h k = tt
Moves-trans (x ∷ xs) [] zs h k = absurd h
Moves-trans (x ∷ xs) (y ∷ ys) [] h k = absurd k
Moves-trans (x ∷ xs) (y ∷ ys) (z ∷ zs) h k =
    (Moved-trans x y z h.0 k.0, Moves-trans xs ys zs h.1 k.1)

-- The primary key.
abbrev pub UniqueIds : List PartnerCustomer → Type 0
UniqueIds [] = Unit
UniqueIds (r ∷ rs) = (any (by_id r.id) rs ≡ false) × UniqueIds rs

any_of_find :
    (p : PartnerCustomer → Bool) (rows : List PartnerCustomer) (pc : PartnerCustomer)
    → find p rows ≡ some pc
    → any (by_id pc.id) rows ≡ true
any_of_find p [] pc h = absurd (cc)
any_of_find p (r ∷ rs) pc h = ground (arith, any_of_find p rs pc, eq_iff r.id pc.id)

pub find_passes :
    (p : PartnerCustomer → Bool) (rows : List PartnerCustomer) (pc : PartnerCustomer)
    → find p rows ≡ some pc
    → p pc ≡ true
find_passes p [] pc h = absurd (cc)
find_passes p (r ∷ rs) pc h = ground (arith, find_passes p rs pc)

-- With the primary key the row that a query found is the only one with its id.
abbrev pub Only : PartnerCustomer → PartnerCustomer → Type 0
Only pc r = str_eq r.id pc.id ≡ true → r ≡ pc

Only-absent :
    (pc : PartnerCustomer) (rows : List PartnerCustomer)
    → any (by_id pc.id) rows ≡ false
    → All (Only pc) rows
Only-absent pc [] h = tt
Only-absent pc (r ∷ rs) h = (λ e. ground arith, Only-absent pc rs (ground arith))

pub find-Only :
    (p : PartnerCustomer → Bool) (rows : List PartnerCustomer) (pc : PartnerCustomer)
    → UniqueIds rows
    → find p rows ≡ some pc
    → All (Only pc) rows
find-Only p [] pc u h = tt
find-Only p (r ∷ rs) pc u h = elim (Bool-cases (p r)) [
  | inl here ↦
      let e : r ≡ pc = ground arith in
      (λ _. e, Only-absent pc rs (ap (λ x. any (by_id x.id) rs) (sym e) ∙ u.0))
  | inr later ↦
      let rest : find p rs ≡ some pc = ground arith in
      let present = any_of_find p rs pc rest in
      (
        λ same.
            let e = (eq_iff r.id pc.id).0 same in
            absurd (cc (ap (λ i. any (by_id i) rs) e, present, u.0)),
        find-Only p rs pc u.1 rest,
      )
]

Moved-update_row :
    (pc' r : PartnerCustomer)
    → (str_eq r.id pc'.id ≡ true → may_become r.request_status pc'.request_status ≡ true)
    → Moved r (update_row pc' r)
Moved-update_row pc' r h = elim (Bool-cases (str_eq r.id pc'.id)) [
  | inl same ↦ rw same (record {
    same_id = refl;
    same_username = refl;
    same_org = refl;
    same_partner = refl;
    same_contact = refl;
    moves = h same;
  })
  | inr other ↦ rw other (Moved-refl r)
]

pub Moves-update :
    (pc pc' : PartnerCustomer) (rows : List PartnerCustomer)
    → pc'.id ≡ pc.id
    → may_become pc.request_status pc'.request_status ≡ true
    → All (Only pc) rows
    → Moves rows (map (update_row pc') rows)
Moves-update pc pc' [] e m h = tt
Moves-update pc pc' (r ∷ rs) e m h = (
  Moved-update_row pc' r (λ same.
      let it = h.0 (ap (λ i. str_eq r.id i) (sym e) ∙ same) in
      ap (λ x. may_become x.request_status pc'.request_status) it ∙ m),
  Moves-update pc pc' rs e m h.1,
)

-- The constraints after an update that the unique index lets through.
any-by_id-update :
    (pc' : PartnerCustomer) (id : String) (rows : List PartnerCustomer)
    → any (by_id id) (map (update_row pc') rows) ≡ any (by_id id) rows
any-by_id-update pc' id [] = refl
any-by_id-update pc' id (r ∷ rs) = ground (arith, any-by_id-update pc' id rs)

id-update_row : (pc' r : PartnerCustomer) → (update_row pc' r).id ≡ r.id
id-update_row pc' r = ground arith

pub UniqueIds-update :
    (pc' : PartnerCustomer) (rows : List PartnerCustomer)
    → UniqueIds rows
    → UniqueIds (map (update_row pc') rows)
UniqueIds-update pc' [] u = tt
UniqueIds-update pc' (r ∷ rs) u = (
  ap (λ i. any (by_id i) (map (update_row pc') rs)) (id-update_row pc' r)
      ∙ any-by_id-update pc' r.id rs
      ∙ u.0,
  UniqueIds-update pc' rs u.1,
)

any-by_id-append :
    (id : String) (rows : List PartnerCustomer) (pc : PartnerCustomer)
    → any (by_id id) (rows ++ pc ∷ []) ≡ any (by_id id) rows || str_eq pc.id id
any-by_id-append id rows pc = ground (arith, any-append (by_id id) rows (pc ∷ []))

pub UniqueIds-append :
    (pc : PartnerCustomer) (rows : List PartnerCustomer)
    → any (by_id pc.id) rows ≡ false
    → UniqueIds rows
    → UniqueIds (rows ++ pc ∷ [])
UniqueIds-append pc [] h u = (refl, tt)
UniqueIds-append pc (r ∷ rs) h u = (
  ground (arith, any-by_id-append r.id rs pc, eq_iff pc.id r.id, eq_iff r.id pc.id),
  UniqueIds-append pc rs (ground arith) u.1,
)
