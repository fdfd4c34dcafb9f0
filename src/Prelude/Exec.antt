-- ===== src/Prelude/Exec.antt =====
-- Methods that change an object through a pointer and may return an error or panic. What was
-- written before an error stays written, so the state comes back beside every outcome.
use nutsdb.Prelude.Outcomes.{Outcome, ok, err, panic}

abbrev pub Exec {ℓ κ μ} : Type ℓ → Type κ → Type μ → Type (ℓ ⊔ κ ⊔ μ)
Exec S E A = S → Outcome E A × S

module _ {ℓ κ μ} {S : Type ℓ} {E : Type κ} {A : Type μ} where
  abbrev pub pure : A → Exec S E A
  pure a s = (ok a, s)

  abbrev pub fail : E → Exec S E A
  fail e s = (err e, s)

  abbrev pub crash : Exec S E A
  crash s = (panic, s)

  abbrev pub gets : (S → A) → Exec S E A
  gets f s = (ok (f s), s)

module _ {ℓ κ} {S : Type ℓ} {E : Type κ} where
  abbrev pub modify : (S → S) → Exec S E (Unit {0})
  modify f s = (ok tt, f s)

module _ {ℓ κ μ ν} {S : Type ℓ} {E : Type κ} {A : Type μ} {B : Type ν} where
  abbrev pub continue : Outcome E A → S → (A → Exec S E B) → Outcome E B × S
  continue (ok a) s f = f a s
  continue (err e) s f = (err e, s)
  continue panic s f = (panic, s)

  infixl 5 ◌>>=◌ ◌>>◌
  abbrev pub ◌>>=◌ : Exec S E A → (A → Exec S E B) → Exec S E B
  ◌>>=◌ m f s = continue (m s).0 (m s).1 f

  abbrev pub ◌>>◌ : Exec S E A → Exec S E B → Exec S E B
  m >> n = m >>= λ _. n

module _ {ℓ κ μ} {S : Type ℓ} {E : Type κ} {A : Type μ} where
  abbrev handle : Outcome E A → S → A → Outcome E A × S
  handle (ok a) s d = (ok a, s)
  handle (err e) s d = (ok d, s)
  handle panic s d = (panic, s)

  -- `x, _ = f()`: the error is dropped, and `x` is the value that `f` returns beside it.
  abbrev pub or_default : A → Exec S E A → Exec S E A
  or_default d m s = handle (m s).0 (m s).1 d
