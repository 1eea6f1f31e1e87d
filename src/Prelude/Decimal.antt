-- ===== src/Prelude/Decimal.antt =====
-- fmt's %d.
use Prim.Native.Nat.{ℕ, zero, suc, ◌/◌, ◌%◌, ◌<◌}
use Prim.Native.String.{String, ◌++◌}
use Prim.Native.Char.{Char}
use mathlib.Core.Path.{◌≡◌, refl}
use mathlib.Core.Bool.{Bool, true}
use mathlib.Core.Logic.{inl, inr}
use native.Mathlib.Omega.{arith}
use kopia_operator.Prelude.Tests.{Bool-cases, ltb, if◌then◌else◌, if-both}
use kopia_operator.Prelude.Text.{every, every-append}
use kopia_operator.Prelude.Int.{ℤ, pos, negsuc}

unfoldable pub digit : ℕ → String
digit zero = "0"
digit (suc zero) = "1"
digit (suc (suc zero)) = "2"
digit (suc (suc (suc zero))) = "3"
digit (suc (suc (suc (suc zero)))) = "4"
digit (suc (suc (suc (suc (suc zero))))) = "5"
digit (suc (suc (suc (suc (suc (suc zero)))))) = "6"
digit (suc (suc (suc (suc (suc (suc (suc zero))))))) = "7"
digit (suc (suc (suc (suc (suc (suc (suc (suc zero)))))))) = "8"
digit _ = "9"

-- The digits of n in front of `acc`; a number has fewer digits than its successor counts.
digits : ℕ → ℕ → String → String
digits zero n acc = acc
digits (suc fuel) n acc =
    let rest = digits fuel (n / 10) (digit (n % 10) ++ acc) in
    if ltb n 10 then digit n ++ acc else rest

unfoldable pub decimal : ℕ → String
unfolding digit digits
decimal n = digits (suc n) n ""

unfoldable pub decimal_int : ℤ → String
unfolding decimal
decimal_int (pos n) = decimal n
decimal_int (negsuc n) = "-" ++ decimal (suc n)

-- Any two numbers of steps above n give the digits of n alike.
digits-enough : (k m n : ℕ) (acc : String) → n < k → n < m → digits k n acc ≡ digits m n acc
unfolding digits
digits-enough zero m n acc h h' = absurd (omega arith)
digits-enough (suc k) zero n acc h h' = absurd (omega arith)
digits-enough (suc k) (suc m) n acc h h' = elim (Bool-cases (ltb n 10)) [
  | inl e ↦ rw (e, digits)
  | inr e ↦
      rw (e, digits)
        (digits-enough k m (n / 10) (digit (n % 10) ++ acc) (ground (arith, e)) (ground (arith, e)))
]

module _ (p : Char → Bool) (digit-every : (n : ℕ) → every p (digit n) ≡ true) where
  every-digits :
      (fuel n : ℕ) (acc : String) → every p acc ≡ true → every p (digits fuel n acc) ≡ true
  unfolding digits
  every-digits zero n acc h = h
  every-digits (suc fuel) n acc h =
      if-both (λ s. every p s ≡ true) (ltb n 10) (every-append p (digit n) acc (digit-every n) h)
        (every-digits fuel (n / 10) (digit (n % 10) ++ acc)
          (every-append p (digit (n % 10)) acc (digit-every (n % 10)) h))

  -- A number is made of the ten digits.
  pub every-decimal : (n : ℕ) → every p (decimal n) ≡ true
  unfolding decimal
  every-decimal n = every-digits (suc n) n "" refl
