-- ===== src/Access/Store.antt =====
-- internal/store/transaction.go and the calls of the database that the stores make.
--
-- The database's tables are lists of rows. `faults` says which of the coming database calls fail
-- (connection lost, timeout): each call takes one entry, and an exhausted list means no failure.
pub mod Effects
pub mod Atomic
pub mod Yields
use migration_planner.Prelude.{
  ◌≡◌, refl, ap, ◌∙◌, ◌⊎◌, inl, inr, Bool, true, false, List, [], ◌∷◌, arith, if◌then◌else◌,
}
use migration_planner.Access.Model.{
  Relationship, PartnerCustomer, Group, Member, AssessmentRow, Source, SourceSubsetInventory, Agent,
  ImageInfra, Label, Key, Error, db_error,
}

pub data Result {ℓ} (A : Type ℓ) : Type ℓ where
  ok : A → Result A
  err : Error → Result A

pub record Db : Type 0 where
  pub requests : List PartnerCustomer
  pub groups : List Group
  pub members : List Member
  pub assessments : List AssessmentRow
  pub sources : List Source
  pub source_subsets : List SourceSubsetInventory
  pub agents : List Agent
  pub image_infras : List ImageInfra
  pub labels : List Label
  pub keys : List Key
  pub relationships : List Relationship

pub record World : Type 0 where
  pub db : Db
  pub faults : List Bool

abbrev pub M : Type 0 → Type 0
M A = World → Result A × World

module _ {A B : Type 0} where
  abbrev pub bind_result : (A → M B) → Result A → World → Result B × World
  bind_result f (ok a) w = f a w
  bind_result f (err e) w = (err e, w)

  infixl 5 ◌>>=◌ ◌>>◌
  abbrev pub ◌>>=◌ : M A → (A → M B) → M B
  ◌>>=◌ m f w = let (r, w') = m w in bind_result f r w'

  abbrev pub ◌>>◌ : M A → M B → M B
  m >> n = m >>= λ _. n

module _ {A : Type 0} where
  abbrev pub pure : A → M A
  pure a w = (ok a, w)

  abbrev pub throw : Error → M A
  throw e w = (err e, w)

  abbrev pub catch_result : (Error → M A) → Result A → World → Result A × World
  catch_result h (ok a) w = (ok a, w)
  catch_result h (err e) w = h e w

  -- `if err != nil { … }`: the handler sees the error and what the call left.
  abbrev pub catch : M A → (Error → M A) → M A
  catch m h w = let (r, w') = m w in catch_result h r w'

  abbrev pub settle : World → List Bool → Result (A × Db) → Result A × World
  settle w rest (ok (a, db)) = (ok a, record { db = db; faults = rest })
  settle w rest (err e) = (err e, record { db = w.db; faults = rest })

  abbrev pub next_call : World → List Bool → Result (A × Db) → Result A × World
  next_call w [] r = settle w [] r
  next_call w (false ∷ rest) r = settle w rest r
  next_call w (true ∷ rest) r = (err db_error, record { db = w.db; faults = rest })

  -- One statement: it fails, or it reads and changes the tables; one that fails changes nothing.
  unfoldable pub statement : (Db → Result (A × Db)) → M A
  statement f w = next_call w w.faults (f w.db)

  unfoldable pub query : (Db → Result A) → M A
  unfolding statement
  query f = statement (λ db. elim (f db) [ ok a ↦ ok (a, db) | err e ↦ err e ])

abbrev no_statement : Db → Result (Unit {0} × Db)
no_statement db = ok (tt, db)

no_statement_db : (w : World) → (statement no_statement w).1.db ≡ w.db
unfolding statement
no_statement_db w = ground arith

module _ {A : Type 0} where
  abbrev pub end_transaction : Db → Result A × World → Result A × World
  end_transaction before (ok a, w) =
      let (committed, w') = statement no_statement w in
      elim committed [
        | ok _ ↦ (ok a, w')
        | err e ↦ (err e, record { db = before; faults = w'.faults })
      ]
  end_transaction before (err e, w) = (err e, record { db = before; faults = w.faults })

  abbrev begin_transaction : M A → Result (Unit {0}) × World → Result A × World
  begin_transaction body (ok _, w) = end_transaction w.db (body w)
  begin_transaction body (err e, w) = (err e, w)

  -- NewTransactionContext, the body, then Commit; `defer Rollback` on every other way out.
  unfoldable pub transaction : M A → M A
  unfolding statement
  transaction body w = begin_transaction body (statement no_statement w)

  -- The same body under a context: one that has a transaction is joined, and Commit and Rollback
  -- are then left to the owner of that transaction.
  abbrev pub in_context : Bool → M A → M A
  in_context true body = body
  in_context false body = transaction body

  end_transaction_atomic :
      (before : Db) (o : Result A × World) (e : Error)
      → (end_transaction before o).0 ≡ err e
      → (end_transaction before o).1.db ≡ before
  unfolding statement
  end_transaction_atomic before (ok a, w) e h = ground arith
  end_transaction_atomic before (err x, w) e h = refl

  begin_transaction_atomic :
      (body : M A) (o : Result (Unit {0}) × World) (e : Error)
      → (begin_transaction body o).0 ≡ err e
      → (begin_transaction body o).1.db ≡ o.1.db
  begin_transaction_atomic body (ok _, w) e h = end_transaction_atomic w.db (body w) e h
  begin_transaction_atomic body (err x, w) e h = refl

  -- A transaction that fails leaves the tables as they were, whatever its body did.
  pub transaction_atomic :
      (body : M A) (w : World) (e : Error)
      → (transaction body w).0 ≡ err e
      → (transaction body w).1.db ≡ w.db
  unfolding transaction
  transaction_atomic body w e h =
      begin_transaction_atomic body (statement no_statement w) e h ∙ no_statement_db w

  end_transaction_ok :
      (before : Db) (o : Result A × World) (a : A)
      → (end_transaction before o).0 ≡ ok a
      → (o.0 ≡ ok a) × ((end_transaction before o).1.db ≡ o.1.db)
  unfolding statement
  end_transaction_ok before (ok x, w) a h = ground arith
  end_transaction_ok before (err x, w) a h = ground arith

  begin_transaction_ok :
      (body : M A) (o : Result (Unit {0}) × World) (a : A)
      → (begin_transaction body o).0 ≡ ok a
      → ((body o.1).0 ≡ ok a) × ((begin_transaction body o).1.db ≡ (body o.1).1.db)
  begin_transaction_ok body (ok _, w) a h = end_transaction_ok w.db (body w) a h
  begin_transaction_ok body (err x, w) a h = ground arith

  -- One that succeeds has run its body to success from the same tables, and keeps what it did.
  pub transaction_ok :
      (body : M A) (w : World) (a : A)
      → (transaction body w).0 ≡ ok a
      → (w₀ : World) × (w₀.db ≡ w.db)
        × ((body w₀).0 ≡ ok a)
        × ((transaction body w).1.db ≡ (body w₀).1.db)
  unfolding transaction
  transaction_ok body w a h =
      let (done, same) = begin_transaction_ok body (statement no_statement w) a h in
      ((statement no_statement w).1, no_statement_db w, done, same)

pub ok_injective : {A : Type 0} (x y : A) → ok x ≡ ok y → x ≡ y
ok_injective x y h = ground arith

pub Result-cases :
    {A : Type 0} (result : Result A)
    → ((value : A) × (result ≡ ok value)) ⊎ ((error : Error) × (result ≡ err error))
Result-cases (ok a) = inl (a, refl)
Result-cases (err e) = inr (e, refl)

module _ {A B : Type 0} where
  bind_result_ok :
      (f : A → M B) (o : Result A × World) (b : B)
      → (bind_result f o.0 o.1).0 ≡ ok b
      → (a : A) × (o.0 ≡ ok a) × (bind_result f o.0 o.1 ≡ f a o.1)
  bind_result_ok f (ok a, w) b h = (a, refl, refl)
  bind_result_ok f (err e, w) b h = ground arith

  -- A chain that succeeds has run its first step to success.
  pub >>=_ok :
      (m : M A) (f : A → M B) (w : World) (b : B)
      → ((m >>= f) w).0 ≡ ok b
      → (a : A) × ((m w).0 ≡ ok a) × ((m >>= f) w ≡ f a (m w).1)
  >>=_ok m f w b h = bind_result_ok f (m w) b h

module _ {A : Type 0} where
  -- A statement that succeeds does what it says.
  pub statement_ok :
      (f : Db → Result (A × Db)) (w : World) (a : A) (db : Db)
      → f w.db ≡ ok (a, db)
      → (x : A) → (statement f w).0 ≡ ok x
      → (statement f w).1.db ≡ db
  unfolding statement
  statement_ok f w a db h x s = ground arith

  next_call_ok :
      (w : World) (faults : List Bool) (r : Result (A × Db)) (a : A)
      → (next_call w faults r).0 ≡ ok a
      → (db : Db) × (r ≡ ok (a, db)) × ((next_call w faults r).1.db ≡ db)
  next_call_ok w [] (ok (x, db)) a h = (db, ap (λ y. ok (y, db)) (ok_injective x a h), refl)
  next_call_ok w [] (err e) a h = ground arith
  next_call_ok w (false ∷ rest) (ok (x, db)) a h =
      (db, ap (λ y. ok (y, db)) (ok_injective x a h), refl)
  next_call_ok w (false ∷ rest) (err e) a h = ground arith
  next_call_ok w (true ∷ rest) r a h = ground arith

  -- A statement that succeeds ran.
  pub statement_run :
      (f : Db → Result (A × Db)) (w : World) (a : A)
      → (statement f w).0 ≡ ok a
      → (db : Db) × (f w.db ≡ ok (a, db)) × ((statement f w).1.db ≡ db)
  unfolding statement
  statement_run f w a h = next_call_ok w w.faults (f w.db) a h

  -- A chain that succeeds has passed its guards.
  pub guard_ok :
      (test : Bool) (e : Error) (m : M A) (w : World) (a : A)
      → ((if test then throw e else m) w).0 ≡ ok a
      → (test ≡ false) × ((m w).0 ≡ ok a)
  guard_ok true e m w a h = ground arith
  guard_ok false e m w a h = (refl, h)
