-- ===== src/Access/Store/Effects.antt =====
-- What a method does to the tables, whichever database calls fail: one rule for each way to build
-- a method.
use mathlib.Core.Path.{subst, subst₂}
use migration_planner.Prelude.{
  ◌≡◌, refl, sym, ◌∙◌, inl, inr, Bool, true, false, List, [], ◌∷◌, arith, if◌then◌else◌,
}
use migration_planner.Access.Model.{Error}
use migration_planner.Access.Store.{
  Result, ok, ok_injective, err, Db, World, M, bind_result, ◌>>=◌, throw, catch, catch_result,
  next_call, pure, statement, query, transaction, Result-cases, transaction_atomic, transaction_ok,
}

-- The tables before and after a call of `m` are related by `Q`, on every way out.
abbrev pub Effects : {A : Type 0} → (Db → Db → Type 0) → M A → Type 0
Effects Q m = (w : World) → Q w.db (m w).1.db

-- `m` changes no table, and what it returns satisfies `g`.
abbrev pub Reads : {A : Type 0} → (Db → A → Type 0) → M A → Type 0
Reads {A} g m = (w : World) → ((m w).1.db ≡ w.db) × ((a : A) → (m w).0 ≡ ok a → g w.db a)

module _ {A : Type 0} where
  pub Reads-query : (f : Db → Result A) → Reads (λ db a. f db ≡ ok a) (query f)
  unfolding query
  Reads-query f w = (ground arith, λ a h. ground arith)

  catch_reads :
      (g : Db → A → Type 0) (c : Error → Error) (db : Db) (o : Result A × World)
      → (o.1.db ≡ db) × ((a : A) → o.0 ≡ ok a → g db a)
      → let o' = catch_result (λ e. throw {A = A} (c e)) o.0 o.1 in
        (o'.1.db ≡ db) × ((a : A) → o'.0 ≡ ok a → g db a)
  catch_reads g c db (ok a, w) h = h
  catch_reads g c db (err e, w) h = (h.0, λ a x. absurd (cc))

  pub Reads-catch :
      (g : Db → A → Type 0) (m : M A) (c : Error → Error)
      → Reads g m
      → Reads g (catch m (λ e. throw (c e)))
  Reads-catch g m c r w = catch_reads g c w.db (m w) (r w)

-- A branch taken by a test.
pub at_if :
    {A : Type 0} (P : Db → Type 0) (b : Bool) (m n : M A) (w : World)
    → (b ≡ true → P (m w).1.db)
    → (b ≡ false → P (n w).1.db)
    → P ((if b then m else n) w).1.db
at_if P true m n w h k = h refl
at_if P false m n w h k = k refl

module _ {A : Type 0} (Q : Db → Db → Type 0) (Q_refl : (db : Db) → Q db db) where
  next_call_effect :
      (w : World) (faults : List Bool) (r : Result (A × Db))
      → ((a : A) (db' : Db) → r ≡ ok (a, db') → Q w.db db')
      → Q w.db (next_call w faults r).1.db
  next_call_effect w [] (ok (a, db)) h = h a db refl
  next_call_effect w [] (err e) h = Q_refl w.db
  next_call_effect w (false ∷ rest) (ok (a, db)) h = h a db refl
  next_call_effect w (false ∷ rest) (err e) h = Q_refl w.db
  next_call_effect w (true ∷ rest) r h = Q_refl w.db

  pub Effects-statement :
      (f : Db → Result (A × Db))
      → ((db db' : Db) (a : A) → f db ≡ ok (a, db') → Q db db')
      → Effects Q (statement f)
  unfolding statement
  Effects-statement f h w = next_call_effect w w.faults (f w.db) (λ a db'. h w.db db' a)

  -- The same at tables of which something is known.
  pub statement_at :
      (f : Db → Result (A × Db)) (w : World)
      → ((a : A) (db' : Db) → f w.db ≡ ok (a, db') → Q w.db db')
      → Q w.db (statement f w).1.db
  unfolding statement
  statement_at f w h = next_call_effect w w.faults (f w.db) h

  pub Effects-transaction : (body : M A) → Effects Q body → Effects Q (transaction body)
  Effects-transaction body h w = elim (Result-cases (transaction body w).0) [
    | inl (a, done) ↦
        let (w₀, start, ran, kept) = transaction_ok body w a done in
        subst₂ Q start (sym kept) (h w₀)
    | inr (e, failed) ↦ subst (Q w.db) (sym (transaction_atomic body w e failed)) (Q_refl w.db)
  ]

module _ {A B : Type 0} (Q : Db → Db → Type 0) (Q_refl : (db : Db) → Q db db) where
  read_effect :
      (g : Db → A → Type 0) (k : A → M B) (db : Db) (o : Result A × World)
      → (o.1.db ≡ db) × ((a : A) → o.0 ≡ ok a → g db a)
      → ((a : A) (w : World) → g w.db a → Q w.db (k a w).1.db)
      → Q db (bind_result k o.0 o.1).1.db
  read_effect g k db (ok a, w) (same, found) h =
      subst (λ d. Q d (k a w).1.db) same (h a w (subst (λ d. g d a) (sym same) (found a refl)))
  read_effect g k db (err e, w) (same, found) h = subst (Q db) (sym same) (Q_refl db)

  -- After a read the rest may use what was read.
  pub Effects-read :
      (g : Db → A → Type 0) (m : M A) (k : A → M B)
      → Reads g m
      → ((a : A) (w : World) → g w.db a → Q w.db (k a w).1.db)
      → Effects Q (m >>= k)
  Effects-read g m k r h w = read_effect g k w.db (m w) (r w) h

  chain_effect :
      (R : Db → Db → Type 0) (k : A → M B) (db : Db) (o : Result A × World)
      → ((x y z : Db) → Q x y → R y z → Q x z)
      → Q db o.1.db
      → ((a : A) → Effects R (k a))
      → Q db (bind_result k o.0 o.1).1.db
  chain_effect R k db (ok a, w) join first rest = join db w.db (k a w).1.db first (rest a w)
  chain_effect R k db (err e, w) join first rest = first

  pub Effects-bind :
      (R : Db → Db → Type 0) (m : M A) (k : A → M B)
      → ((x y z : Db) → Q x y → R y z → Q x z)
      → Effects Q m
      → ((a : A) → Effects R (k a))
      → Effects Q (m >>= k)
  Effects-bind R m k join first rest w = chain_effect R k w.db (m w) join (first w) rest

  pub then_read_effect :
      (g : A → Db → B → Type 0) (k : A → M B) (db : Db) (o : Result A × World)
      → Q db o.1.db
      → ((a : A) → Reads (g a) (k a))
      → Q db (bind_result k o.0 o.1).1.db
  then_read_effect g k db (ok a, w) first reads = subst (Q db) (sym (reads a w).0) first
  then_read_effect g k db (err e, w) first reads = first

  -- A read at the end changes nothing more.
  pub Effects-then_read :
      (g : A → Db → B → Type 0) (m : M A) (k : A → M B)
      → Effects Q m
      → ((a : A) → Reads (g a) (k a))
      → Effects Q (m >>= k)
  Effects-then_read g m k first reads w = then_read_effect g k w.db (m w) (first w) reads

module _ {A B : Type 0} where
  bind-Reads :
      (g : Db → A → Type 0) (h : Db → B → Type 0) (k : A → M B) (db : Db) (o : Result A × World)
      → (o.1.db ≡ db) × ((a : A) → o.0 ≡ ok a → g db a)
      → ((a : A) → Reads (λ db b. g db a → h db b) (k a))
      → ((bind_result k o.0 o.1).1.db ≡ db) × ((b : B) → (bind_result k o.0 o.1).0 ≡ ok b → h db b)
  bind-Reads g h k db (ok a, w) (same, found) rest =
      let (same', found') = rest a w in
      (same' ∙ same, λ b r. subst (λ d. g d a → h d b) same (found' b r) (found a refl))
  bind-Reads g h k db (err e, w) (same, found) rest = (same, λ b r. absurd (cc))

  -- A read after a read.
  pub Reads-bind :
      (g : Db → A → Type 0) (h : Db → B → Type 0) (m : M A) (k : A → M B)
      → Reads g m
      → ((a : A) → Reads (λ db b. g db a → h db b) (k a))
      → Reads h (m >>= k)
  Reads-bind g h m k r rest w = bind-Reads g h k w.db (m w) (r w) rest

pub Reads-value :
    {A : Type 0} (P : Db → A → Type 0) (a : A) → ((db : Db) → P db a) → Reads P (pure a)
Reads-value P a given w = (refl, λ x h. subst (P w.db) (ok_injective a x h) (given w.db))

pub Reads-pure : {A : Type 0} (a : A) → Reads (λ db x. x ≡ a) (pure a)
Reads-pure a w = (refl, λ x h. ground arith)

module _ {A : Type 0} (Q : Db → Db → Type 0) where
  catch_effect :
      (c : Error → Error) (db : Db) (o : Result A × World)
      → Q db o.1.db
      → Q db (catch_result (λ e. throw {A = A} (c e)) o.0 o.1).1.db
  catch_effect c db (ok a, w) h = h
  catch_effect c db (err e, w) h = h

  -- Another error is returned.
  pub Effects-catch :
      (m : M A) (c : Error → Error) → Effects Q m → Effects Q (catch m (λ e. throw (c e)))
  Effects-catch m c h w = catch_effect c w.db (m w) (h w)

-- The tables do not change.
abbrev pub Same : Db → Db → Type 0
Same db db' = db' ≡ db

module _ {A : Type 0} where
  catch-Same :
      (h : Error → M A) (db : Db) (o : Result A × World)
      → o.1.db ≡ db
      → ((e : Error) → Effects Same (h e))
      → (catch_result h o.0 o.1).1.db ≡ db
  catch-Same h db (ok a, w) same rest = same
  catch-Same h db (err e, w) same rest = rest e w ∙ same

  pub Same-catch :
      (m : M A) (h : Error → M A)
      → Effects Same m
      → ((e : Error) → Effects Same (h e))
      → Effects Same (catch m h)
  Same-catch m h first rest w = catch-Same h w.db (m w) (first w) rest

  pub Reads-Same : (m : M A) → Effects Same m → Reads (λ db a. Unit {0}) m
  Reads-Same m h w = (h w, λ a e. tt)

  pub Same-query : (f : Db → Result A) → Effects Same (query f)
  Same-query f w = (Reads-query f w).0

module _ {A B : Type 0} (Q : Db → Db → Type 0) (Q_refl : (db : Db) → Q db db) where
  -- What is known of the tables is still known after a read.
  pub after_read :
      (P : Db → Type 0) (m : M A) (k : A → M B) (w : World)
      → Effects Same m
      → P w.db
      → ((a : A) (w' : World) → P w'.db → Q w'.db (k a w').1.db)
      → Q w.db ((m >>= k) w).1.db
  after_read P m k w same given rest =
      read_effect Q Q_refl (λ db a. P db) k w.db (m w) (same w, λ a h. given) rest

pub Reads-weaken :
    {A : Type 0} (g h : Db → A → Type 0) (m : M A)
    → ((db : Db) (a : A) → g db a → h db a)
    → Reads g m
    → Reads h m
Reads-weaken g h m weaker r w = ((r w).0, λ a e. weaker w.db a ((r w).1 a e))

pub Same-if :
    {A : Type 0} (b : Bool) (m n : M A)
    → Effects Same m
    → Effects Same n
    → Effects Same (if b then m else n)
Same-if true m n h k = h
Same-if false m n h k = k

pub Same-bind :
    {A B : Type 0} (m : M A) (k : A → M B)
    → Effects Same m
    → ((a : A) → Effects Same (k a))
    → Effects Same (m >>= k)
Same-bind m k first rest = Effects-bind Same (λ db. refl) Same m k (λ x y z h k. k ∙ h) first rest
