-- ===== src/Sources/Isolation/Requests.antt =====
-- Any sequence of requests about sources by users who do not own a source leaves it intact.
use migration_planner.Prelude.{
  String, Bool, arith, true, false, not, ◌≡◌, refl, sym, ap, Option, none, some, str_eq, eq_iff,
  Bool-cases, inl, inr, if◌then◌else◌,
}
use mathlib.Core.Path.{subst}
use migration_planner.Access.Model.{User, Source, Key}
use migration_planner.Access.Store.{Result, ok, err, Db, World}
use migration_planner.Access.Handlers.{Response}
use migration_planner.Sources.Store.{LoadedSource}
use migration_planner.Sources.Agents.{find_source}
use migration_planner.Sources.Uploads.{SourceCreateForm, SourceUpdateForm}
use migration_planner.Sources.Handlers.{
  is_foreign, with_source, guarded, owned_form, InventoryBody, ParsedBundle, json_form, bundle_form,
  handle_create_source, handle_delete_source, handle_update_source, handle_update_inventory,
  handle_upload_source_inventory_file, handle_get_source_download,
}
use migration_planner.Sources.Keeping.{source_at}
use migration_planner.Sources.Tokens.{Gives, find_source-Gives, Gives_parts}
use migration_planner.Sources.Isolation.{SameRows, SameRows-trans, Intact-refl}
use migration_planner.Sources.Isolation.Downloads.{get_source_download-Intact}
use migration_planner.Sources.Isolation.Uploads.{
  create_source-Intact, delete_source-Intact, update_source-Intact, update_inventory-Intact,
}

pub data Request : Type 0 where
  create : String → String → String → Option SourceCreateForm → Request
  change : String → Option SourceUpdateForm → Request
  upload : String → Option InventoryBody → Request
  upload_file : String → String → Option (Option ParsedBundle) → Request
  remove : String → Request
  download : Option Key → String → Request

module _ (expires : String → Bool) (sign : Key → Source → Option String)
    (is_valid_create : SourceCreateForm → Bool) (is_valid_update : SourceUpdateForm → Bool) where
  -- The tables after the request of a user.
  unfoldable pub serve : User → Request → World → World
  serve user (create new_id image_token_key email_domain body) w =
      (handle_create_source is_valid_create new_id image_token_key user email_domain body w).1
  serve user (change id body) w = (handle_update_source is_valid_update user id body w).1
  serve user (upload id body) w = (handle_update_inventory user id body w).1
  serve user (upload_file new_id id body) w =
      (handle_upload_source_inventory_file new_id user id body w).1
  serve user (remove id) w = (handle_delete_source user id w).1
  serve user (download new_key id) w = (handle_get_source_download expires sign new_key user id w).1

  module _ (id : String) (s : Source) where
    -- The source that was there is as it was, and so are its rows.
    abbrev Unharmed : Db → Db → Type 0
    Unharmed x y = source_at id x ≡ some s → (source_at id y ≡ some s) × SameRows id x y

    -- A foreign user's request is for another source.
    other_source :
        (user : User) (t : String) (l : LoadedSource) (db : Db)
        → is_foreign user s ≡ true
        → is_foreign user l.source ≡ false
        → source_at id db ≡ some s
        → Gives t db l
        → str_eq t id ≡ false
    other_source user t l db foreign owned found h = elim (Bool-cases (str_eq t id)) [
      | inl same ↦
          let there = (Gives_parts db (source_at t db) l h).0 in
          let at_id = ap (λ x. source_at x db) (sym ((eq_iff t id).0 same)) in
          absurd (cc (there, at_id, found, foreign, owned))
      | inr other ↦ other
    ]

    with_source-Unharmed :
        {A : Type 0} (user : User) (t : String) (next : LoadedSource → World → Response A × World)
        (db : Db) (o : Result LoadedSource × World)
        → is_foreign user s ≡ true
        → (o.1.db ≡ db) × ((l : LoadedSource) → o.0 ≡ ok l → Gives t db l)
        → ((l : LoadedSource) (w : World)
            → str_eq t id ≡ false
            → Gives t w.db l
            → Unharmed w.db (next l w).1.db)
        → Unharmed db (with_source user next o.0 o.1).1.db
    with_source-Unharmed user t next db (ok l, w) foreign (same, read) h =
        let given = subst (λ d. Gives t d l) (sym same) (read l refl) in
        subst (λ d. Unharmed d (with_source user next (ok l) w).1.db) same
          (λ found. elim (Bool-cases (is_foreign user l.source)) [
            | inl not_owned ↦ rw not_owned (Intact-refl id w.db s found)
            | inr owned ↦
                let apart = other_source user t l w.db foreign owned found given in
                rw owned (h l w apart given found)
          ])
    with_source-Unharmed user t next db (err e, w) foreign (same, read) h =
        subst (λ d. Unharmed db d) (sym same) (Intact-refl id db s)

    guarded-Unharmed :
        {A : Type 0} (user : User) (t : String) (next : LoadedSource → World → Response A × World)
        (w : World)
        → is_foreign user s ≡ true
        → ((l : LoadedSource) (w : World) → str_eq t id ≡ false → Unharmed w.db (next l w).1.db)
        → Unharmed w.db (guarded user t next w).1.db
    guarded-Unharmed user t next w foreign h =
        with_source-Unharmed user t next w.db (find_source t w) foreign (find_source-Gives t w)
          (λ l w' apart given. h l w' apart)

    -- An id that is made is not that of the source.
    abbrev pub Fresh : Request → Type 0
    Fresh (create new_id image_token_key email_domain body) = str_eq new_id id ≡ false
    Fresh request = Unit

    if-Unharmed :
        {A : Type 0} (b : Bool) (x y : Response A × World) (db : Db)
        → Unharmed db x.1.db
        → Unharmed db y.1.db
        → Unharmed db (if b then x else y).1.db
    if-Unharmed true x y db h k = h
    if-Unharmed false x y db h k = k

    serve-Unharmed :
        (user : User) (request : Request) (w : World)
        → is_foreign user s ≡ true
        → Fresh request
        → Unharmed w.db (serve user request w).db
    unfolding serve handle_create_source handle_update_source handle_update_inventory
        handle_upload_source_inventory_file handle_delete_source handle_get_source_download
    serve-Unharmed user (create new_id key email none) w foreign fresh = Intact-refl id w.db s
    serve-Unharmed user (create new_id key email (some form)) w foreign fresh =
        if-Unharmed (not (is_valid_create form)) _ _ w.db (Intact-refl id w.db s)
          (create_source-Intact id new_id fresh key (owned_form user email form) w s)
    serve-Unharmed user (change t none) w foreign fresh = Intact-refl id w.db s
    serve-Unharmed user (change t (some form)) w foreign fresh =
        if-Unharmed (not (is_valid_update form)) _ _ w.db (Intact-refl id w.db s) (
          guarded-Unharmed user t _ w foreign
            (λ l w' apart. update_source-Intact id t apart form w' s))
    serve-Unharmed user (upload t none) w foreign fresh = Intact-refl id w.db s
    serve-Unharmed user (upload t (some body)) w foreign fresh =
        guarded-Unharmed user t _ w foreign
          (λ l w' apart. update_inventory-Intact id t apart (json_form t body) refl w' s)
    serve-Unharmed user (upload_file new_id t none) w foreign fresh = Intact-refl id w.db s
    serve-Unharmed user (upload_file new_id t (some none)) w foreign fresh =
        guarded-Unharmed user t _ w foreign (λ l w' apart. Intact-refl id w'.db s)
    serve-Unharmed user (upload_file new_id t (some (some parsed))) w foreign fresh =
        guarded-Unharmed user t _ w foreign (λ l w' apart.
          update_inventory-Intact id t apart (bundle_form new_id t l parsed) refl w' s)
    serve-Unharmed user (remove t) w foreign fresh =
        guarded-Unharmed user t _ w foreign (λ l w' apart. delete_source-Intact id t apart w' s)
    serve-Unharmed user (download new_key t) w foreign fresh =
        guarded-Unharmed user t _ w foreign
          (λ l w' apart. get_source_download-Intact id t apart sign expires new_key w' s)

    -- The user does not own the source.
    abbrev Foreign : User → Type 0
    Foreign user = ¬ ((user.username ≡ s.username) × (user.organization ≡ s.org_id))

    Foreign-is_foreign : (user : User) → Foreign user → is_foreign user s ≡ true
    Foreign-is_foreign user other = elim (Bool-cases (is_foreign user s)) [
      | inl foreign ↦ foreign
      | inr owned ↦ absurd (
          other (
            (eq_iff user.username s.username).0 (ground (arith, owned)),
            (eq_iff user.organization s.org_id).0 (ground (arith, owned)),
          ))
    ]

    -- Requests of users, none of whom owns the source; each finds the tables that the one before
    -- left, and which of its database calls fail is free.
    pub data Reaches : Db → Db → Type 0 where
      stays : (db : Db) → Reaches db db
      requested :
          (user : User) (request : Request) (w : World) (z : Db)
          → Foreign user
          → Fresh request
          → Reaches (serve user request w).db z
          → Reaches w.db z

    requests-Unharmed : (x y : Db) → Reaches x y → Unharmed x y
    requests-Unharmed x _ (stays _) found = Intact-refl id x s found
    requests-Unharmed _ z (requested user request w _ foreign fresh rest) found =
        let (there, rows) =
          serve-Unharmed user request w (Foreign-is_foreign user foreign) fresh found in
        let (there', rows') = requests-Unharmed (serve user request w).db z rest there in
        (there', SameRows-trans id w.db (serve user request w).db z rows rows')

    -- After any sequence of requests that create, change, upload to, delete or download sources, by
    -- users of whom none owns the source, and whichever database calls fail, the source is exactly
    -- as it was, and so are its subsets, its agents, its labels and its image. The ids of created
    -- sources are not the source's.
    pub requests-SameRows :
        (x y : Db)
        → Reaches x y
        → source_at id x ≡ some s
        → (source_at id y ≡ some s) × SameRows id x y
    requests-SameRows x y reached found = requests-Unharmed x y reached found
