-- ===== src/Access/Authz/Updates.antt =====
-- What `WriteRelationships` leaves in the table.
use migration_planner.Prelude.{
  ◌≡◌, refl, sym, ap, ◌∙◌, true, false, not, ◌&&◌, ◌||◌, List, [], ◌∷◌, ◌++◌, arith, if◌then◌else◌,
  any-append,
}
use migration_planner.Access.Model.{
  Relationship, RelationshipUpdate, touch, delete, same_relationship, same_relationship_eq,
  same_relationship_refl,
}
use migration_planner.Access.Store.{ok, Db, World, >>=_ok, statement_ok}
use migration_planner.Access.Authz.{
  touch_rows, delete_rows, holds, insert_rows, remove_rows, touch_statement, delete_statement,
  write_relationships,
}

holds_same :
    (x y : Relationship) (rows : List Relationship)
    → same_relationship x y ≡ true
    → holds x rows ≡ holds y rows
holds_same x y rows h = ap (λ r. holds r rows) (same_relationship_eq x y h)

holds-insert_rows :
    (x : Relationship) (table rows : List Relationship)
    → holds x (insert_rows table rows) ≡ holds x table || holds x rows
unfolding insert_rows
holds-insert_rows x table [] = ground arith
holds-insert_rows x table (r ∷ rs) = ground (
  arith,
  holds-insert_rows x (if holds r table then table else table ++ r ∷ []) rs,
  any-append (same_relationship x) table (r ∷ []),
  holds_same x r table,
)

holds-remove_rows :
    (x : Relationship) (table rows : List Relationship)
    → holds x (remove_rows table rows) ≡ holds x table && not (holds x rows)
unfolding remove_rows
holds-remove_rows x [] rows = refl
holds-remove_rows x (r ∷ table) rows =
    ground (arith, holds-remove_rows x table rows, holds_same x r rows)

remove_rows-nil : (table : List Relationship) → remove_rows table [] ≡ table
unfolding remove_rows
remove_rows-nil [] = refl
remove_rows-nil (r ∷ table) = ap (λ rs. r ∷ rs) (remove_rows-nil table)

touch_statement_ok :
    (rows : List Relationship) (w : World)
    → (touch_statement rows w).0 ≡ ok tt
    → (touch_statement rows w).1.db
      ≡ record w.db { relationships = insert_rows w.db.relationships rows }
unfolding insert_rows
touch_statement_ok [] w h = refl
touch_statement_ok (r ∷ rs) w h = statement_ok _ w tt _ refl tt h

delete_statement_ok :
    (rows : List Relationship) (w : World)
    → (delete_statement rows w).0 ≡ ok tt
    → (delete_statement rows w).1.db
      ≡ record w.db { relationships = remove_rows w.db.relationships rows }
delete_statement_ok [] w h =
    ap (λ rs. record w.db { relationships = rs }) (sym (remove_rows-nil w.db.relationships))
delete_statement_ok (r ∷ rs) w h = statement_ok _ w tt _ refl tt h

-- The table that a batch of updates leaves: all touches, then all deletes.
pub after_updates : List RelationshipUpdate → List Relationship → List Relationship
after_updates updates table =
    remove_rows (insert_rows table (touch_rows updates)) (delete_rows updates)

pub holds-after_updates :
    (updates : List RelationshipUpdate) (table : List Relationship) (x : Relationship)
    → holds x (after_updates updates table)
      ≡ (holds x table || holds x (touch_rows updates)) && not (holds x (delete_rows updates))
unfolding after_updates
holds-after_updates updates table x =
    holds-remove_rows x (insert_rows table (touch_rows updates)) (delete_rows updates)
    ∙ ap (λ b. b && not (holds x (delete_rows updates)))
        (holds-insert_rows x table (touch_rows updates))

remove_rows-absent :
    (r : Relationship) (table : List Relationship)
    → holds r table ≡ false
    → remove_rows (table ++ r ∷ []) (r ∷ []) ≡ table
unfolding remove_rows
remove_rows-absent r [] h = ground (arith, same_relationship_refl r)
remove_rows-absent r (x ∷ table) h =
    ground (arith, remove_rows-absent r table, same_relationship_eq x r, same_relationship_refl r)

-- A row that was not in the table, touched and then deleted, leaves the table as it was.
pub touch_then_delete :
    (r : Relationship) (table : List Relationship)
    → holds r table ≡ false
    → after_updates (delete r ∷ []) (after_updates (touch r ∷ []) table) ≡ table
unfolding after_updates insert_rows
touch_then_delete r table h =
    ap (λ t. remove_rows (remove_rows t []) (r ∷ [])) (ground arith)
    ∙ ap (λ t. remove_rows t (r ∷ [])) (remove_rows-nil (table ++ r ∷ []))
    ∙ remove_rows-absent r table h

pub write_relationships_ok :
    (updates : List RelationshipUpdate) (w : World)
    → (write_relationships updates w).0 ≡ ok tt
    → (write_relationships updates w).1.db
      ≡ record w.db { relationships = after_updates updates w.db.relationships }
unfolding write_relationships after_updates
write_relationships_ok updates w h =
    let (_, touched, rest) =
      >>=_ok (touch_statement (touch_rows updates)) (λ _. delete_statement (delete_rows updates)) w
        tt h in
    let w₁ = (touch_statement (touch_rows updates) w).1 in
    let first = touch_statement_ok (touch_rows updates) w touched in
    let second = delete_statement_ok (delete_rows updates) w₁ (ap (λ o. o.0) (sym rest) ∙ h) in
    ap (λ o. o.1.db) rest
    ∙ second
    ∙ ap {A = Db}
        (λ db. record db { relationships = remove_rows db.relationships (delete_rows updates) })
        first

-- After a batch that succeeds a row stands in the table exactly when it stood there before or the
-- batch touches it, and the batch does not delete it: a delete wins over a touch of the same row,
-- in whichever order the builder was given them. Every other table is as it was.
pub holds-write_relationships :
    (updates : List RelationshipUpdate) (w : World)
    → (write_relationships updates w).0 ≡ ok tt
    → (x : Relationship)
    → (holds x (write_relationships updates w).1.db.relationships ≡ (
        (holds x w.db.relationships || holds x (touch_rows updates))
        && not (holds x (delete_rows updates))))
      × ((write_relationships updates w).1.db
          ≡ record w.db { relationships = (write_relationships updates w).1.db.relationships })
holds-write_relationships updates w h x =
    let after = write_relationships_ok updates w h in
    (
      ap (λ db. holds x db.relationships) after ∙ holds-after_updates updates w.db.relationships x,
      after
          ∙ ap {A = List Relationship} (λ rows. record w.db { relationships = rows })
              (sym (ap (λ (db : Db). db.relationships) after)),
    )
