-- ===== src/Io/Laws.antt =====
-- Laws of transactions and of the world's calls.
use save_knot.Prelude.{◌≡◌, refl, ◌⊎◌, inl, inr, arith}
use save_knot.Io.{Error, Result, ok, err, World, Exec, statement, transaction, ◌>>=◌}
use save_knot.Database.Schema.{Database}

pub Result-cases {ℓ} :
    {A : Type ℓ} (r : Result A) → ((a : A) × (r ≡ ok a)) ⊎ ((e : Error) × (r ≡ err e))
Result-cases (ok a) = inl (a, refl)
Result-cases (err e) = inr (e, refl)

-- An operation that returns an error has changed no table.
pub record IsAtomic {ℓ} {A : Type ℓ} (m : Exec A) : Type ℓ where
  pub unchanged : (w : World) (e : Error) → (m w).0 ≡ err e → (m w).1.db ≡ w.db

module _ {ℓ} {A : Type ℓ} where
  -- A transaction that does not return a result has changed no table.
  pub transaction_atomic :
      (m : Exec A) (w : World) (e : Error)
      → (transaction m w).0 ≡ err e
      → (transaction m w).1.db ≡ w.db
  unfolding transaction
  transaction_atomic m w e h = ground arith

  pub transaction-IsAtomic : (m : Exec A) → IsAtomic (transaction m)
  transaction-IsAtomic m = record { unchanged = transaction_atomic m }

  pub statement-IsAtomic : (f : Database → Result (A × Database)) → IsAtomic (statement f)
  unfolding statement
  statement-IsAtomic f = record { unchanged = λ w e h. ground (arith, h) }

-- What holds of the world after a chain of two operations: after the second, or after the first if
-- that fails.
pub bind_world {ℓ κ} :
    {A : Type ℓ} {B : Type κ} (P : World → Type 0) (m : Exec A) (f : A → Exec B) (w : World)
    → ((a : A) → (m w).0 ≡ ok a → P (f a (m w).1).1)
    → ((e : Error) → (m w).0 ≡ err e → P (m w).1)
    → P ((m >>= f) w).1
unfolding ◌>>=◌
bind_world P m f w done failed = elim (Result-cases (m w).0) [
  | inl (a, e) ↦ rw e (done a e)
  | inr (x, e) ↦ rw e (failed x e)
]

-- The same of the result and the world.
pub bind_outcome {ℓ κ} :
    {A : Type ℓ} {B : Type κ} (P : Result B × World → Type 0) (m : Exec A) (f : A → Exec B)
    (w : World)
    → ((a : A) → (m w).0 ≡ ok a → P (f a (m w).1))
    → ((e : Error) → (m w).0 ≡ err e → P (err e, (m w).1))
    → P ((m >>= f) w)
unfolding ◌>>=◌
bind_outcome P m f w done failed = elim (Result-cases (m w).0) [
  | inl (a, e) ↦ rw e (done a e)
  | inr (x, e) ↦ rw e (failed x e)
]

-- What holds after the second of two operations, wherever it starts, holds after both if they succeed.
pub bind_after {ℓ} :
    {A : Type ℓ} (Q : World → Type 0) (m : Exec A) (f : A → Exec (Unit {0}))
    → ((a : A) (v : World) → (f a v).0 ≡ ok tt → Q (f a v).1)
    → (w : World) → ((m >>= f) w).0 ≡ ok tt
    → Q ((m >>= f) w).1
bind_after Q m f next w =
    bind_outcome (λ o. o.0 ≡ ok tt → Q o.1) m f w (λ a _. next a (m w).1) (λ e _ h. absurd (cc))

-- The same for operations that return a value.
pub bind_result {ℓ} :
    {A : Type ℓ} {B : Type 0} (b : B) (Q : World → Type 0) (m : Exec A) (f : A → Exec B)
    → ((a : A) (v : World) → (f a v).0 ≡ ok b → Q (f a v).1)
    → (w : World) → ((m >>= f) w).0 ≡ ok b
    → Q ((m >>= f) w).1
bind_result b Q m f next w =
    bind_outcome (λ o. o.0 ≡ ok b → Q o.1) m f w (λ a _. next a (m w).1) (λ e _ h. absurd (cc))
