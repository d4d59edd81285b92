-- ===== src/Arb/Policy/Checks.antt =====
-- A Go `switch` whose cases are conditions that return an error: the first that holds decides.
use adjudication.Prelude.{
  ℕ, zero, suc, Bool, true, false, Option, none, some, List, [], ◌∷◌, ◌≡◌, refl, if◌then◌else◌,
}

module _ {ℓ} {E : Type ℓ} where
  unfoldable pub first_error : List (Bool × E) → Option E
  first_error [] = none
  first_error ((b, e) ∷ rest) = if b then some e else first_error rest

  abbrev pub NoneHolds : List (Bool × E) → Type 0
  NoneHolds [] = Unit
  NoneHolds ((b, e) ∷ rest) = (b ≡ false) × NoneHolds rest

  pub first_error-none : (cs : List (Bool × E)) → first_error cs ≡ none → NoneHolds cs
  unfolding first_error
  first_error-none [] h = tt
  first_error-none ((true, e) ∷ rest) h = cc
  first_error-none ((false, e) ∷ rest) h = (refl, first_error-none rest h)

  pub none-first_error : (cs : List (Bool × E)) → NoneHolds cs → first_error cs ≡ none
  unfolding first_error
  none-first_error [] h = refl
  none-first_error ((b, e) ∷ rest) h = rw h.0 (none-first_error rest h.1)

-- One more condition that does not hold.
infixr 4 ◌⊗◌
abbrev pub ◌⊗◌ : {A B : Type 0} → A → B → A × B
a ⊗ b = (a, b)

-- What is known of the k-th condition.
abbrev pub Fact {ℓ} : {E : Type ℓ} → List (Bool × E) → ℕ → Type 0
Fact [] k = Unit
Fact ((b, e) ∷ rest) zero = b ≡ false
Fact ((b, e) ∷ rest) (suc k) = Fact rest k

pub fact {ℓ} : {E : Type ℓ} (cs : List (Bool × E)) (k : ℕ) → NoneHolds cs → Fact cs k
fact [] k h = tt
fact ((b, e) ∷ rest) zero h = h.0
fact ((b, e) ∷ rest) (suc k) h = fact rest k h.1
