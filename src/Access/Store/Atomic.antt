-- ===== src/Access/Store/Atomic.antt =====
-- Methods that leave the tables as they were when they return an error: one rule for each way to
-- build a method.
use migration_planner.Prelude.{
  ◌≡◌, refl, ◌∙◌, Bool, true, false, List, [], ◌∷◌, arith, if◌then◌else◌,
}
use migration_planner.Access.Model.{Error}
use migration_planner.Access.Store.{
  Result, ok, err, Db, World, M, bind_result, catch_result, ◌>>=◌, ◌>>◌, pure, throw, catch,
  statement, next_call, transaction, transaction_atomic,
}
use migration_planner.Access.Store.Effects.{Effects, Same}

abbrev pub Atomic : {A : Type 0} → M A → Type 0
Atomic m = (w : World) (e : Error) → (m w).0 ≡ err e → (m w).1.db ≡ w.db

module _ {A : Type 0} where
  pub Atomic-transaction : (body : M A) → Atomic (transaction body)
  Atomic-transaction body w e f = transaction_atomic body w e f

  catch-Atomic :
      (c : Error → Error) (db : Db) (o : Result A × World) (e : Error)
      → ((e : Error) → o.0 ≡ err e → o.1.db ≡ db)
      → (catch_result (λ e. throw {A = A} (c e)) o.0 o.1).0 ≡ err e
      → (catch_result (λ e. throw {A = A} (c e)) o.0 o.1).1.db ≡ db
  catch-Atomic c db (ok a, w) e h f = ground arith
  catch-Atomic c db (err x, w) e h f = h x refl

  pub Atomic-catch : (m : M A) (c : Error → Error) → Atomic m → Atomic (catch m (λ e. throw (c e)))
  Atomic-catch m c h w e f = catch-Atomic c w.db (m w) e (h w) f

  pub Atomic-if : (b : Bool) (m n : M A) → Atomic m → Atomic n → Atomic (if b then m else n)
  Atomic-if true m n h k = h
  Atomic-if false m n h k = k

module _ {A B : Type 0} where
  read-Atomic :
      (k : A → M B) (db : Db) (o : Result A × World) (e : Error)
      → o.1.db ≡ db
      → ((a : A) → Atomic (k a))
      → (bind_result k o.0 o.1).0 ≡ err e
      → (bind_result k o.0 o.1).1.db ≡ db
  read-Atomic k db (ok a, w) e same rest f = rest a w e f ∙ same
  read-Atomic k db (err x, w) e same rest f = same

  -- Reads may come first.
  pub Atomic-read :
      (m : M A) (k : A → M B) → Effects Same m → ((a : A) → Atomic (k a)) → Atomic (m >>= k)
  Atomic-read m k same rest w e f = read-Atomic k w.db (m w) e (same w) rest f

  done-Atomic :
      (b : B) (db : Db) (o : Result A × World) (e : Error)
      → ((e : Error) → o.0 ≡ err e → o.1.db ≡ db)
      → (bind_result (λ _. pure b) o.0 o.1).0 ≡ err e
      → (bind_result (λ _. pure b) o.0 o.1).1.db ≡ db
  done-Atomic b db (ok a, w) e h f = ground arith
  done-Atomic b db (err x, w) e h f = h x refl

  pub Atomic-done : (m : M A) (b : B) → Atomic m → Atomic (m >> pure b)
  Atomic-done m b h w e f = done-Atomic b w.db (m w) e (h w) f

  mapped-Atomic :
      (f : A → B) (db : Db) (o : Result A × World) (e : Error)
      → ((e : Error) → o.0 ≡ err e → o.1.db ≡ db)
      → (bind_result (λ a. pure (f a)) o.0 o.1).0 ≡ err e
      → (bind_result (λ a. pure (f a)) o.0 o.1).1.db ≡ db
  mapped-Atomic f db (ok a, w) e h x = ground arith
  mapped-Atomic f db (err y, w) e h x = h y refl

  pub Atomic-map : (m : M A) (f : A → B) → Atomic m → Atomic (m >>= λ a. pure (f a))
  Atomic-map m f h w e x = mapped-Atomic f w.db (m w) e (h w) x

module _ {A : Type 0} where
  pub Atomic-throw : (e : Error) → Atomic (throw {A = A} e)
  Atomic-throw e w x h = refl

  next_call-Atomic :
      (w : World) (faults : List Bool) (r : Result (A × Db)) (e : Error)
      → (next_call w faults r).0 ≡ err e
      → (next_call w faults r).1.db ≡ w.db
  next_call-Atomic w [] (ok (a, db)) e h = ground arith
  next_call-Atomic w [] (err x) e h = refl
  next_call-Atomic w (false ∷ rest) (ok (a, db)) e h = ground arith
  next_call-Atomic w (false ∷ rest) (err x) e h = refl
  next_call-Atomic w (true ∷ rest) r e h = refl

  -- A statement that fails changes nothing.
  pub Atomic-statement : (f : Db → Result (A × Db)) → Atomic (statement f)
  unfolding statement
  Atomic-statement f w e h = next_call-Atomic w w.faults (f w.db) e h
