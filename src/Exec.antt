-- ===== src/Exec.antt =====
-- Go functions that return `(value, error)` over the world that they change. What was changed before
-- an error stays changed, so the state comes back beside the error too.
use kopia_operator.Prelude.{String, ◌≡◌, refl, ◌⊎◌, inl, inr}
use kopia_operator.Error.{Error, wrap}

pub data Result {ℓ} (A : Type ℓ) : Type ℓ where
  ok : A → Result A
  err : Error → Result A

abbrev pub wrap_result {ℓ} : {A : Type ℓ} → String → Result A → Result A
wrap_result m (ok a) = ok a
wrap_result m (err e) = err (wrap m e)

abbrev pub Exec {ℓ} : Type ℓ → Type ℓ → Type ℓ
Exec W A = W → Result A × W

module _ {ℓ} {W A B : Type ℓ} where
  abbrev pub continue : Result A → (A → Exec W B) → Exec W B
  continue (ok a) f w = f a w
  continue (err e) f w = (err e, w)

  infixl 5 ◌>>=◌ ◌>>◌
  -- `a, err := m; if err != nil { return err }`, and the rest
  abbrev pub ◌>>=◌ : Exec W A → (A → Exec W B) → Exec W B
  ◌>>=◌ m f w = let (r, w') = m w in continue r f w'

  abbrev pub ◌>>◌ : Exec W A → Exec W B → Exec W B
  m >> n = m >>= λ _. n

module _ {ℓ} {W A : Type ℓ} where
  -- `return a, nil`
  abbrev pub pure : A → Exec W A
  pure a w = (ok a, w)

  -- `return err`
  abbrev pub raise : Error → Exec W A
  raise e w = (err e, w)

  -- `if err != nil { return fmt.Errorf("<text>: %w", err) }`
  abbrev pub wrapping : String → Exec W A → Exec W A
  wrapping m x w = let (r, w') = x w in (wrap_result m r, w')

  -- The call with its error as a value, for code that looks at it.
  abbrev pub attempt : Exec W A → Exec W (Result A)
  attempt x w = let (r, w') = x w in (ok r, w')

  -- A call that cannot fail.
  abbrev pub lift : (W → A × W) → Exec W A
  lift x w = let (a, w') = x w in (ok a, w')

-- The world after a call whose value is dropped.
after_answer : {W A : Type 0} (r : Result A) (w : W) → (continue r (λ _. pure tt) w).1 ≡ w
after_answer (ok a) w = refl
after_answer (err e) w = refl

pub then_pure : {W A : Type 0} (x : Exec W A) (w : W) → ((x >> pure tt) w).1 ≡ (x w).1
then_pure x w = after_answer (x w).0 (x w).1

pub Result-cases :
    {A : Type 0} (r : Result A) → ((a : A) × (r ≡ ok a)) ⊎ ((e : Error) × (r ≡ err e))
Result-cases (ok a) = inl (a, refl)
Result-cases (err e) = inr (e, refl)
