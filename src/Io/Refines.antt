-- ===== src/Io/Refines.antt =====
-- What an operation on the database does to the tables when no call fails, as a function of the
-- tables: one rule for each way to build an operation. A `Tx` returns tables with its result only.
use save_knot.Prelude.{
  Bool, true, false, List, [], ◌∷◌, ◌≡◌, refl, inl, inr, arith, if◌then◌else◌, ◌∙◌,
}
use save_knot.Io.{
  Error, Result, ok, err, World, Exec, pure, fail, ◌>>=◌, external, statement, query, transaction,
  committed, for_each,
}
use save_knot.Io.Laws.{Result-cases}
use save_knot.Database.Schema.{Database}

abbrev pub Tx {ℓ} : Type ℓ → Type ℓ
Tx A = Database → Result (A × Database)

abbrev pub return_tx {ℓ} : {A : Type ℓ} → A → Tx A
return_tx a db = ok (a, db)

abbrev pub continue_tx {ℓ κ} :
    {A : Type ℓ} {B : Type κ} → (A → Tx B) → Result (A × Database) → Result (B × Database)
continue_tx f (ok (a, db)) = f a db
continue_tx f (err e) = err e

abbrev pub bind_tx {ℓ κ} : {A : Type ℓ} {B : Type κ} → Tx A → (A → Tx B) → Tx B
bind_tx m f db = continue_tx f (m db)

unfoldable pub for_each_tx {ℓ} : {A : Type ℓ} → List A → (A → Tx (Unit {0})) → Tx (Unit {0})
for_each_tx [] f = return_tx tt
for_each_tx (a ∷ rest) f = bind_tx (f a) (λ _. for_each_tx rest f)

abbrev pub result_of {ℓ} : {A : Type ℓ} → Result (A × Database) → Result A
result_of (ok (a, db)) = ok a
result_of (err e) = err e

-- Whenever the operation returns a result, the function gives this result and the tables that the
-- operation leaves. Where the world refuses nothing, the operation returns what the function does,
-- errors included. It touches no file.
pub record Refines {ℓ} {A : Type ℓ} (m : Exec A) (f : Tx A) : Type ℓ where
  pub success : (w : World) (a : A) → (m w).0 ≡ ok a → f w.db ≡ ok (a, (m w).1.db)
  pub quiet : (w : World) → w.faults ≡ [] → ((m w).0 ≡ result_of (f w.db)) × ((m w).1.faults ≡ [])
  pub disk : (w : World) → (m w).1.disk ≡ w.disk

module _ {ℓ} {A : Type ℓ} where
  pub Refines-pure : (a : A) → Refines (pure a) (return_tx a)
  Refines-pure a = record {
    success = λ w b h. ground arith;
    quiet = λ w h. (refl, h);
    disk = λ w. refl;
  }

  pub Refines-statement : (f : Tx A) → Refines (statement f) f
  unfolding statement
  Refines-statement f = record {
    success = λ w a h. ground (arith, h);
    quiet = λ w h. (ground (arith, h), ground (arith, h));
    disk = λ w. ground arith;
  }

  pub Refines-query : (f : Database → A) → Refines (query f) (λ db. ok (f db, db))
  unfolding query
  Refines-query f = record {
    success = λ w a h. ground (arith, h);
    quiet = λ w h. (ground (arith, h), ground (arith, h));
    disk = λ w. ground arith;
  }

  pub Refines-fail : (e : Error) → Refines {A = A} (fail e) (λ db. err e)
  Refines-fail e = record { success = λ w a h. cc; quiet = λ w h. (refl, h); disk = λ w. refl }

  pub Refines-if :
      (b : Bool) (m n : Exec A) (f g : Tx A)
      → Refines m f
      → Refines n g
      → Refines (if b then m else n) (if b then f else g)
  Refines-if true m n f g k l = k
  Refines-if false m n f g k l = l

module _ {ℓ κ} {A : Type ℓ} {B : Type κ} where
  pub Refines-bind :
      (m : Exec A) (f : Tx A) (n : A → Exec B) (g : A → Tx B)
      → Refines m f
      → ((a : A) → Refines (n a) (g a))
      → Refines (m >>= n) (bind_tx f g)
  unfolding ◌>>=◌
  Refines-bind m f n g r k = record {
    success = λ w b h. elim (Result-cases (m w).0) [
      | inl (a, e) ↦ rw (r.success w a e, e, ◌>>=◌) ((k a).success (m w).1 b (rw e at h))
      | inr (x, e) ↦ let bad : err x ≡ ok b = (rw e at h) in cc
    ];
    quiet = λ w h. elim (Result-cases (m w).0) [
      | inl (a, e) ↦ rw (e, r.success w a e) ((k a).quiet (m w).1 (r.quiet w h).1)
      | inr (x, e) ↦ rw e (ground (arith, (r.quiet w h).0), (r.quiet w h).1)
    ];
    disk = λ w. elim (Result-cases (m w).0) [
      | inl (a, e) ↦ rw e ((k a).disk (m w).1 ∙ r.disk w)
      | inr (x, e) ↦ rw e (r.disk w)
    ];
  }

Refines-begin : Refines (external (pure {A = Unit {0}} tt)) (return_tx tt)
unfolding external
Refines-begin = record {
  success = λ w a h. ground arith;
  quiet = λ w h. (ground (arith, h), ground (arith, h));
  disk = λ w. ground arith;
}

module _ {ℓ} {A : Type ℓ} where
  Refines-committed : (m : Exec A) (f : Tx A) → Refines m f → Refines (committed m) f
  unfolding committed
  Refines-committed m f r = record {
    success = λ w a h. ground (arith, h, r.success w a);
    quiet = λ w h. elim (Result-cases (m w).0) [
      | inl (a, e) ↦
          (ground (arith, e, (r.quiet w h).0, (r.quiet w h).1), ground (arith, e, (r.quiet w h).1))
      | inr (x, e) ↦ (ground (arith, e, (r.quiet w h).0), ground (arith, e, (r.quiet w h).1))
    ];
    disk = λ w. ground (arith, r.disk w);
  }

  pub Refines-transaction : (m : Exec A) (f : Tx A) → Refines m f → Refines (transaction m) f
  unfolding transaction
  Refines-transaction m f r =
      Refines-bind (external (pure tt)) (return_tx tt) (λ _. committed m) (λ _. f) Refines-begin
        (λ _. Refines-committed m f r)

pub Refines-for_each {ℓ} :
    {A : Type ℓ} (xs : List A) (m : A → Exec (Unit {0})) (f : A → Tx (Unit {0}))
    → ((a : A) → Refines (m a) (f a))
    → Refines (for_each xs m) (for_each_tx xs f)
unfolding for_each for_each_tx
Refines-for_each [] m f h = Refines-pure tt
Refines-for_each (x ∷ xs) m f h =
    Refines-bind (m x) (f x) (λ _. for_each xs m) (λ _. for_each_tx xs f) (h x)
      (λ _. Refines-for_each xs m f h)

pub ruleset refines_rules = (
  Refines-pure, Refines-statement, Refines-query, Refines-fail, Refines-transaction, Refines-if,
  Refines-bind, Refines-for_each,
)
