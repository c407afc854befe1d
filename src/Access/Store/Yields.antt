-- ===== src/Access/Store/Yields.antt =====
-- What a method that succeeds returns and leaves: one rule for each way to build a method.
use migration_planner.Prelude.{◌≡◌, refl, sym, Bool, true, false, if◌then◌else◌}
use mathlib.Core.Path.{subst}
use migration_planner.Access.Model.{Error}
use migration_planner.Access.Store.{
  Result, ok, err, Db, World, M, ◌>>=◌, pure, throw, catch, catch_result, statement, transaction,
  ok_injective, >>=_ok, statement_run, transaction_ok,
}
use migration_planner.Access.Store.Effects.{Reads}

-- If `m` succeeds from `w`, the answer and the tables satisfy `Q`.
abbrev pub Yields : {A : Type 0} → (A → Db → Type 0) → M A → World → Type 0
Yields {A} Q m w = (a : A) → (m w).0 ≡ ok a → Q a (m w).1.db

module _ {A : Type 0} (Q : A → Db → Type 0) where
  pub Yields-throw : (e : Error) (w : World) → Yields Q (throw e) w
  Yields-throw e w a h = absurd (cc)

  pub Yields-pure : (a : A) (w : World) → Q a w.db → Yields Q (pure a) w
  Yields-pure a w q b h = subst (λ x. Q x w.db) (ok_injective a b h) q

  pub Yields-if :
      (b : Bool) (m n : M A) (w : World)
      → (b ≡ true → Yields Q m w)
      → (b ≡ false → Yields Q n w)
      → Yields Q (if b then m else n) w
  Yields-if true m n w h k = h refl
  Yields-if false m n w h k = k refl

  pub Yields-statement :
      (f : Db → Result (A × Db)) (w : World)
      → ((a : A) (db : Db) → f w.db ≡ ok (a, db) → Q a db)
      → Yields Q (statement f) w
  Yields-statement f w h a done =
      let (db, ran, left) = statement_run f w a done in subst (Q a) (sym left) (h a db ran)

  catch-Yields :
      (c : Error → Error) (o : Result A × World)
      → ((a : A) → o.0 ≡ ok a → Q a o.1.db)
      → (a : A) → (catch_result (λ e. throw (c e)) o.0 o.1).0 ≡ ok a
      → Q a (catch_result (λ e. throw (c e)) o.0 o.1).1.db
  catch-Yields c (ok x, w) h a done = h a done
  catch-Yields c (err e, w) h a done = absurd (cc)

  pub Yields-catch :
      (m : M A) (c : Error → Error) (w : World)
      → Yields Q m w
      → Yields Q (catch m (λ e. throw (c e))) w
  Yields-catch m c w h a done = catch-Yields c (m w) h a done

  pub Yields-transaction :
      (body : M A) (w : World)
      → ((w₀ : World) → w₀.db ≡ w.db → Yields Q body w₀)
      → Yields Q (transaction body) w
  Yields-transaction body w h a done =
      let (w₀, start, ran, kept) = transaction_ok body w a done in
      subst (Q a) (sym kept) (h w₀ start a ran)

module _ {A B : Type 0} (Q : B → Db → Type 0) where
  pub Yields-bind :
      (P : A → Db → Type 0) (m : M A) (k : A → M B) (w : World)
      → Yields P m w
      → ((a : A) (w' : World) → P a w'.db → Yields Q (k a) w')
      → Yields Q (m >>= k) w
  Yields-bind P m k w first rest b done =
      let (a, ran, then_k) = >>=_ok m k w b done in
      subst (λ (o : Result B × World). o.0 ≡ ok b → Q b o.1.db) (sym then_k)
        (rest a (m w).1 (first a ran) b) done

  -- After a read the tables are the same, and what was read is known.
  pub Yields-read :
      (g : Db → A → Type 0) (m : M A) (k : A → M B) (w : World)
      → Reads g m
      → ((a : A) (w' : World) → w'.db ≡ w.db → g w.db a → Yields Q (k a) w')
      → Yields Q (m >>= k) w
  Yields-read g m k w r rest =
      Yields-bind (λ a db. (db ≡ w.db) × g w.db a) m k w (λ a ran. ((r w).0, (r w).1 a ran))
        (λ a w' p. rest a w' p.0 p.1)
