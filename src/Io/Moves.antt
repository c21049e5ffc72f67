-- ===== src/Io/Moves.antt =====
-- What an operation may do to the world whether it returns or fails: one rule for each way to build
-- an operation.
use save_knot.Prelude.{Bool, true, false, if◌then◌else◌, ◌≡◌, refl, arith}
use save_knot.Io.{Error, World, Exec, pure, fail, ◌>>=◌, external, query}
use save_knot.Io.Reads.{Reads}
use save_knot.Io.Laws.{Result-cases}
use save_knot.Database.Schema.{Database}
use save_knot.Prelude.{inl, inr}

-- A way to change that includes to change no table and no file, and to change twice.
pub record IsChange (R : World → World → Type 0) : Type 0 where
  pub same : (v w : World) → w.db ≡ v.db → w.disk ≡ v.disk → R v w
  pub trans : (u v w : World) → R u v → R v w → R u w

pub record Moves {ℓ} {A : Type ℓ} (R : World → World → Type 0) (m : Exec A) : Type ℓ where
  pub at : (w : World) → R w (m w).1

module _ {R : World → World → Type 0} (c : IsChange R) where
  pub Moves-pure {ℓ} : {A : Type ℓ} (a : A) → Moves R (pure a)
  Moves-pure a = record { at = λ w. c.same w w refl refl }

  pub Moves-begin : Moves R (external (pure {A = Unit {0}} tt))
  unfolding external
  Moves-begin = record { at = λ w. c.same w _ (ground arith) (ground arith) }

  pub Moves-query {ℓ} : {A : Type ℓ} (f : Database → A) → Moves R (query f)
  unfolding query
  Moves-query f = record { at = λ w. c.same w _ (ground arith) (ground arith) }

  pub Moves-bind {ℓ κ} :
      {A : Type ℓ} {B : Type κ} (m : Exec A) (f : A → Exec B)
      → Moves R m
      → ((a : A) → Moves R (f a))
      → Moves R (m >>= f)
  unfolding ◌>>=◌
  Moves-bind m f k l = record {
    at = λ w. elim (Result-cases (m w).0) [
      | inl (a, e) ↦ rw e (c.trans w (m w).1 _ (k.at w) ((l a).at (m w).1))
      | inr (x, e) ↦ rw e (k.at w)
    ];
  }

  pub Moves-fail {ℓ} : {A : Type ℓ} (e : Error) → Moves {A = A} R (fail e)
  Moves-fail e = record { at = λ w. c.same w w refl refl }

  pub Moves-if {ℓ} :
      {A : Type ℓ} (b : Bool) (m n : Exec A) → Moves R m → Moves R n → Moves R (if b then m else n)
  Moves-if true m n k l = k
  Moves-if false m n k l = l

  pub Moves-Reads {ℓ} : {A : Type ℓ} (m : Exec A) → Reads m → Moves R m
  Moves-Reads m r = record { at = λ w. c.same w (m w).1 (r.db w) (r.disk w) }
