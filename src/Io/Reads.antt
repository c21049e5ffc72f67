-- ===== src/Io/Reads.antt =====
-- Operations that change no table, no file and no remote object: one rule for each way to build one.
use save_knot.Prelude.{Bool, true, false, String, ◌≡◌, refl, ◌∙◌, arith, if◌then◌else◌, inl, inr}
use save_knot.Io.Files.{lift, ensure}
use save_knot.Io.{
  Error, Result, external, World, Exec, pure, fail, ◌>>=◌, query, open_file, some_call,
}
use save_knot.Io.Laws.{Result-cases}
use save_knot.Database.Schema.{Database}

pub record Reads {ℓ} {A : Type ℓ} (m : Exec A) : Type ℓ where
  pub db : (w : World) → (m w).1.db ≡ w.db
  pub disk : (w : World) → (m w).1.disk ≡ w.disk
  pub objects : (w : World) → (m w).1.objects ≡ w.objects

module _ {ℓ} {A : Type ℓ} where
  pub Reads-pure : (a : A) → Reads (pure a)
  Reads-pure a = record { db = λ w. refl; disk = λ w. refl; objects = λ w. refl }

  pub Reads-fail : (e : Error) → Reads {A = A} (fail e)
  Reads-fail e = record { db = λ w. refl; disk = λ w. refl; objects = λ w. refl }

  pub Reads-query : (f : Database → A) → Reads (query f)
  unfolding query
  Reads-query f = record {
    db = λ w. ground arith;
    disk = λ w. ground arith;
    objects = λ w. ground arith;
  }

  pub Reads-if : (b : Bool) (m n : Exec A) → Reads m → Reads n → Reads (if b then m else n)
  Reads-if true m n k l = k
  Reads-if false m n k l = l

pub Reads-open_file : (path : String) → Reads (open_file path)
unfolding open_file
Reads-open_file path = record {
  db = λ w. ground arith;
  disk = λ w. ground arith;
  objects = λ w. ground arith;
}

pub Reads-some_call : Reads some_call
unfolding some_call
Reads-some_call = record {
  db = λ w. ground arith;
  disk = λ w. ground arith;
  objects = λ w. ground arith;
}

pub Reads-bind {ℓ κ} :
    {A : Type ℓ} {B : Type κ} (m : Exec A) (f : A → Exec B)
    → Reads m
    → ((a : A) → Reads (f a))
    → Reads (m >>= f)
unfolding ◌>>=◌
Reads-bind m f k l = record {
  db = λ w. elim (Result-cases (m w).0) [
    | inl (a, e) ↦ rw e ((l a).db (m w).1 ∙ k.db w)
    | inr (x, e) ↦ rw e (k.db w)
  ];
  disk = λ w. elim (Result-cases (m w).0) [
    | inl (a, e) ↦ rw e ((l a).disk (m w).1 ∙ k.disk w)
    | inr (x, e) ↦ rw e (k.disk w)
  ];
  objects = λ w. elim (Result-cases (m w).0) [
    | inl (a, e) ↦ rw e ((l a).objects (m w).1 ∙ k.objects w)
    | inr (x, e) ↦ rw e (k.objects w)
  ];
}

pub Reads-ensure : (b : Bool) (text : String) → Reads (ensure b text)
Reads-ensure true text = record { db = λ w. refl; disk = λ w. refl; objects = λ w. refl }
Reads-ensure false text = record { db = λ w. refl; disk = λ w. refl; objects = λ w. refl }

pub Reads-external {ℓ} : {A : Type ℓ} (r : Result A) → Reads (external (lift r))
unfolding external
Reads-external r = record {
  db = λ w. ground arith;
  disk = λ w. ground arith;
  objects = λ w. ground arith;
}

pub ruleset reads_rules = (
  Reads-ensure, Reads-external, Reads-pure, Reads-fail, Reads-query, Reads-if, Reads-open_file,
  Reads-some_call, Reads-bind,
)
