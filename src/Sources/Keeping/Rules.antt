-- ===== src/Sources/Keeping/Rules.antt =====
-- What keeps sources: one rule for each way to build a method.
use migration_planner.Prelude.{String, Bool, true, false, ◌≡◌, refl, ap, none, some, if◌then◌else◌}
use migration_planner.Access.Model.{Error}
use migration_planner.Access.Store.{Result, ok, Db, M, ◌>>=◌, pure, throw, statement}
use migration_planner.Access.Store.Effects.{
  Effects, Effects-statement, Effects-bind, Same-catch, Same-bind, Same-if, Same,
}
use migration_planner.Sources.Agents.{find_source, optional, absent, is_missing}
use migration_planner.Sources.Keeping.{
  Keeps, Keeps-refl, Keeps-trans, same_sources-Keeps, find_source-Loads,
}

-- What the rules need of a relation between the tables before and after.
pub record Preserved (Q : Db → Db → Type 0) : Type 0 where
  pub stays : (x : Db) → Q x x
  pub chains : (x y z : Db) → Q x y → Q y z → Q x z
  pub same_sources : (x y : Db) → y.sources ≡ x.sources → Q x y

pub Keeps-Preserved : (id : String) → Preserved (Keeps id)
Keeps-Preserved id = record {
  stays = Keeps-refl id;
  chains = Keeps-trans id;
  same_sources = same_sources-Keeps id;
}

module _ {A : Type 0} (Q : Db → Db → Type 0) (p : Preserved Q) where
  -- A chain of two parts that preserve the sources.
  pub bind-Preserved :
      {B : Type 0} (m : M A) (k : A → M B)
      → Effects Q m
      → ((a : A) → Effects Q (k a))
      → Effects Q (m >>= k)
  bind-Preserved m k first rest = Effects-bind Q p.stays Q m k p.chains first rest

  pub if-Preserved :
      (b : Bool) (m n : M A) → Effects Q m → Effects Q n → Effects Q (if b then m else n)
  if-Preserved true m n h k = h
  if-Preserved false m n h k = k

  pub Same-Preserved : (m : M A) → Effects Same m → Effects Q m
  Same-Preserved m h w = p.same_sources w.db (m w).1.db (ap (λ (db : Db). db.sources) (h w))

  -- A statement that does not write sources.
  pub other_table-Preserved :
      (f : Db → Result (A × Db))
      → ((db db' : Db) (a : A) → f db ≡ ok (a, db') → db'.sources ≡ db.sources)
      → Effects Q (statement f)
  other_table-Preserved f h =
      Effects-statement Q p.stays f (λ db db' a e. p.same_sources db db' (h db db' a e))

module _ {A : Type 0} (id : String) where
  pub bind-Keeps :
      {B : Type 0} (m : M A) (k : A → M B)
      → Effects (Keeps id) m
      → ((a : A) → Effects (Keeps id) (k a))
      → Effects (Keeps id) (m >>= k)
  bind-Keeps m k first rest = bind-Preserved (Keeps id) (Keeps-Preserved id) m k first rest

  pub if-Keeps :
      (b : Bool) (m n : M A)
      → Effects (Keeps id) m
      → Effects (Keeps id) n
      → Effects (Keeps id) (if b then m else n)
  if-Keeps b m n h k = if-Preserved (Keeps id) (Keeps-Preserved id) b m n h k

  pub Same-Keeps : (m : M A) → Effects Same m → Effects (Keeps id) m
  Same-Keeps m h = Same-Preserved (Keeps id) (Keeps-Preserved id) m h

  pub other_table-Keeps :
      (f : Db → Result (A × Db))
      → ((db db' : Db) (a : A) → f db ≡ ok (a, db') → db'.sources ≡ db.sources)
      → Effects (Keeps id) (statement f)
  other_table-Keeps f h = other_table-Preserved (Keeps id) (Keeps-Preserved id) f h

pub Same-find_source : (id : String) → Effects Same (find_source id)
Same-find_source id w = (find_source-Loads id w).0

pub Same-absent : (A : Type 0) (e : Error) → Effects Same (absent {A = A} e)
Same-absent A e = Same-if (is_missing e) (pure none) (throw e) (λ w. refl) (λ w. refl)

pub Same-optional : {A : Type 0} (m : M A) → Effects Same m → Effects Same (optional m)
Same-optional {A} m h =
    Same-catch (m >>= λ a. pure (some a)) absent (Same-bind m (λ a. pure (some a)) h (λ a w. refl))
      (Same-absent A)
