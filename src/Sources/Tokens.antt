-- ===== src/Sources/Tokens.antt =====
-- The token of a source's agent: GetSourceDownloadURL and ensureAgentToken of
-- internal/service/source.go.
use mathlib.Core.Path.{subst}
use migration_planner.Prelude.{
  String, Bool, true, false, ◌≡◌, refl, sym, ap, ◌∙◌, Option, none, some, List, [], ◌∷◌, map, any,
  find, arith,
}
use migration_planner.Access.Model.{Source, ImageInfra, Key, token_error, resource_not_found}
use migration_planner.Access.Store.{ok, Db, World, ◌>>=◌, ◌>>◌, pure}
use migration_planner.Access.Store.Effects.{
  Effects, Effects-read, then_read_effect, Reads-pure, Reads, Reads-Same, at_if, Reads-query,
  Reads-catch, Same, Same-query,
}
use migration_planner.Access.Store.Yields.{
  Yields, Yields-throw, Yields-pure, Yields-if, Yields-statement, Yields-bind, Yields-read,
}
use migration_planner.Access.Partner.{not_found_as}
use migration_planner.Sources.Store.{
  LoadedSource, loaded, get_source, image_of, set_token, write_token, update_agent_token, get_key,
  create_key, insert_key,
}
use migration_planner.Sources.Agents.{find_source, optional}
use migration_planner.Sources.Uploads.{
  write_signed, write_key, with_key, has_good_token, ensure_agent_token, get_source_download,
}
use migration_planner.Sources.Keeping.{source_at}
use migration_planner.Sources.Keeping.Rules.{Same-optional}

-- What the read of a source gives.
abbrev pub Gives : String → Db → LoadedSource → Type 0
Gives id db l = loaded db (source_at id db) ≡ ok l

pub find_source-Gives : (id : String) → Reads (Gives id) (find_source id)
unfolding find_source get_source
find_source-Gives id =
    Reads-catch (Gives id) (get_source id) (not_found_as resource_not_found)
      (Reads-query (λ db. loaded db (source_at id db)))

pub Gives_parts :
    (db : Db) (o : Option Source) (l : LoadedSource)
    → loaded db o ≡ ok l
    → (o ≡ some l.source) × (l.image_infra ≡ find (image_of l.source.id) db.image_infras)
Gives_parts db none l h = absurd (cc)
Gives_parts db (some s) l h = (ground arith, ground arith)

module _ (expires : String → Bool) where
  -- The source is there, and its image has a token that is not near its end.
  abbrev pub HasToken : String → Db → Type 0
  HasToken id db =
      (s : Source) × (source_at id db ≡ some s)
      × (has_good_token expires (find (image_of s.id) db.image_infras) ≡ true)

  token_written :
      (id token : String) (rows : List ImageInfra)
      → any (image_of id) rows ≡ true
      → expires token ≡ false
      → has_good_token expires (find (image_of id) (map (set_token id token) rows)) ≡ true
  token_written id token [] h k = absurd (cc)
  token_written id token (r ∷ rows) h k = ground (arith, h, k, token_written id token rows)

  write_token-HasToken :
      (id token : String) (s : Source) (db db' : Db) (u : Unit {0})
      → source_at id db ≡ some s
      → expires token ≡ false
      → write_token s.id token db ≡ ok (u, db')
      → HasToken id db'
  write_token-HasToken id token s db db' u found good h =
      let written = token_written s.id token db.image_infras in
      (s, ground (arith, h, found), ground (arith, h, good, written))

  update_agent_token-HasToken :
      (id token : String) (s : Source) (w : World)
      → source_at id w.db ≡ some s
      → expires token ≡ false
      → Yields (λ u db. HasToken id db) (update_agent_token s.id token) w
  unfolding update_agent_token
  update_agent_token-HasToken id token s w found good =
      Yields-statement (λ u db. HasToken id db) (write_token s.id token) w
        (λ u db h. write_token-HasToken id token s w.db db u found good h)

  -- `made`, if it is a token, is not near its end.
  abbrev pub FreshToken : Option String → Type 0
  FreshToken made = (t : String) → made ≡ some t → expires t ≡ false

  module _ (id : String) (s : Source) where
    -- The answer of a method is not used: what counts is that the token is there.
    abbrev LeavesToken : Unit {0} → Db → Type 0
    LeavesToken u db = HasToken id db

    write_signed-HasToken :
        (made : Option String) (w : World)
        → FreshToken made
        → source_at id w.db ≡ some s
        → Yields LeavesToken (write_signed s made) w
    write_signed-HasToken none w fresh found = Yields-throw LeavesToken token_error w
    write_signed-HasToken (some t) w fresh found =
        update_agent_token-HasToken id t s w found (fresh t refl)

    create_key-found :
        (k : Key) (w : World)
        → source_at id w.db ≡ some s
        → Yields (λ u db. source_at id db ≡ some s) (create_key k) w
    unfolding create_key
    create_key-found k w found =
        Yields-statement (λ u db. source_at id db ≡ some s) (insert_key k) w
          (λ u db h. ground (arith, h, found))

    write_key-HasToken :
        (k : Key) (made : Option String) (w : World)
        → FreshToken made
        → source_at id w.db ≡ some s
        → Yields LeavesToken (write_key k s made) w
    write_key-HasToken k none w fresh found = Yields-throw LeavesToken token_error w
    write_key-HasToken k (some t) w fresh found =
        Yields-bind LeavesToken (λ u db. source_at id db ≡ some s) (create_key k)
          (λ u. update_agent_token s.id t) w (create_key-found k w found)
          (λ u w' h. update_agent_token-HasToken id t s w' h (fresh t refl))

    module _ (sign : Key → Source → Option String)
        (fresh : (k : Key) (r : Source) → FreshToken (sign k r)) where
      with_key-HasToken :
          (new_key old_key : Option Key) (w : World)
          → source_at id w.db ≡ some s
          → Yields LeavesToken (with_key sign s new_key old_key) w
      with_key-HasToken none none w found = Yields-throw LeavesToken token_error w
      with_key-HasToken (some k) none w found = write_key-HasToken k (sign k s) w (fresh k s) found
      with_key-HasToken new_key (some k) w found =
          write_signed-HasToken (sign k s) w (fresh k s) found

  module _ (sign : Key → Source → Option String)
      (fresh : (k : Key) (r : Source) → FreshToken (sign k r)) (new_key : Option Key)
      (id : String) where
    ensure_agent_token-HasToken :
        (l : LoadedSource) (w : World)
        → Gives id w.db l
        → Yields (λ u db. HasToken id db) (ensure_agent_token expires sign new_key l) w
    unfolding ensure_agent_token get_key
    ensure_agent_token-HasToken l w h =
        let (found, image) = Gives_parts w.db (source_at id w.db) l h in
        Yields-if (λ u db. HasToken id db) (has_good_token expires l.image_infra) (pure tt)
          (optional (get_key l.source.org_id) >>= with_key sign l.source new_key) w
          (λ good.
            Yields-pure (λ u db. HasToken id db) tt w
              (l.source, found, ap (has_good_token expires) (sym image) ∙ good))
          (λ bad.
            Yields-read (λ u db. HasToken id db) (λ db a. Unit {0})
              (optional (get_key l.source.org_id)) (with_key sign l.source new_key) w
              (Reads-Same (optional (get_key l.source.org_id))
                (Same-optional (get_key l.source.org_id) (Same-query _)))
              (λ a w' same u.
                with_key-HasToken id l.source sign fresh new_key a w'
                  (ap (source_at id) same ∙ found)))

    get_source_download-HasToken :
        (w : World)
        → Yields (λ s db. HasToken id db) (get_source_download expires sign new_key id) w
    unfolding get_source_download
    get_source_download-HasToken w =
        Yields-read (λ s db. HasToken id db) (Gives id) (find_source id)
          (λ l. ensure_agent_token expires sign new_key l >> pure l.source) w (find_source-Gives id)
          (λ l w' same h.
            Yields-bind (λ s db. HasToken id db) (λ u db. HasToken id db)
              (ensure_agent_token expires sign new_key l) (λ u. pure l.source) w'
              (ensure_agent_token-HasToken l w' (ap (λ db. loaded db (source_at id db)) same ∙ h))
              (λ u w'' has. Yields-pure (λ s db. HasToken id db) l.source w'' has))

    ensure_agent_token-Same :
        (l : LoadedSource) (w : World)
        → Gives id w.db l
        → HasToken id w.db
        → (ensure_agent_token expires sign new_key l w).1.db ≡ w.db
    unfolding ensure_agent_token
    ensure_agent_token-Same l w h (s, found, good) =
        let (there, image) = Gives_parts w.db (source_at id w.db) l h in
        at_if (λ db. db ≡ w.db) (has_good_token expires l.image_infra) (pure tt)
          (optional (get_key l.source.org_id) >>= with_key sign l.source new_key) w (λ h. refl)
          (λ bad. absurd (cc))

    get_source_download-Same :
        Effects (λ x y. HasToken id x → y ≡ x) (get_source_download expires sign new_key id)
    unfolding get_source_download
    get_source_download-Same =
        Effects-read (λ x y. HasToken id x → y ≡ x) (λ db h. refl) (Gives id) (find_source id)
          (λ l. ensure_agent_token expires sign new_key l >> pure l.source) (find_source-Gives id)
          (λ l w h has.
            then_read_effect Same (λ db. refl) (λ u db s. s ≡ l.source) (λ u. pure l.source) w.db
              (ensure_agent_token expires sign new_key l w) (ensure_agent_token-Same l w h has)
              (λ u. Reads-pure l.source))

    -- Where a token is made such that it has more than thirty days left: once the URL of a source was
    -- given, giving it again from the tables as they are changes no table, whichever database calls
    -- fail.
    pub get_source_download-get_source_download :
        (x y : World) (s : Source)
        → (get_source_download expires sign new_key id x).0 ≡ ok s
        → y.db ≡ (get_source_download expires sign new_key id x).1.db
        → (get_source_download expires sign new_key id y).1.db ≡ y.db
    get_source_download-get_source_download x y s given next =
        get_source_download-Same y
          (subst (HasToken id) (sym next) (get_source_download-HasToken x s given))
