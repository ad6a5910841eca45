-- ===== src/Base/Effects.antt =====
-- Methods that change their receiver and may fail. What was written before an error stays written,
-- so the state comes back beside the error too.
use artifact_fs_extropic.Base.Errors.{Error, Result, ok, err}

abbrev pub Exec {ℓ} : Type ℓ → Type ℓ → Type ℓ
Exec S A = S → Result A × S

module _ {ℓ} {S A : Type ℓ} where
  abbrev pub pure : A → Exec S A
  pure a s = (ok a, s)

  abbrev pub raise : Error → Exec S A
  raise e s = (err e, s)

  abbrev pub gets : (S → A) → Exec S A
  gets f s = (ok (f s), s)

  -- Goes on with the value, or with the error, that a call ended with.
  abbrev pub handle {κ} : {B : Type κ} → (A → S → B) → (Error → S → B) → Result A × S → B
  handle good bad (ok a, s) = good a s
  handle good bad (err e, s) = bad e s

module _ {ℓ} {S A B : Type ℓ} where
  infixl 5 ◌>>=◌ ◌>>◌
  abbrev pub ◌>>=◌ : Exec S A → (A → Exec S B) → Exec S B
  ◌>>=◌ m f s = handle f raise (m s)

  abbrev pub ◌>>◌ : Exec S A → Exec S B → Exec S B
  m >> n = m >>= λ _. n

-- `if err := m; err != nil { … }`: the handler takes the error.
abbrev pub catch {ℓ} : {S A : Type ℓ} → Exec S A → (Error → Exec S A) → Exec S A
catch m h s = handle pure h (m s)

-- `_ = m`: the error is dropped.
abbrev pub ignore {ℓ} : {S A : Type ℓ} → Exec S A → Exec S (Unit {ℓ})
ignore m s = (ok tt, (m s).1)
