-- ===== src/Arb/Context/Action.antt =====
-- A method of `runContext`: it returns the context as it left it, with a value or an error. What an
-- error finds done stays done.
use adjudication.Prelude.{Bool, true, false, Result, ok, err, ◌≡◌, refl, arith}
use adjudication.Prelude.Text.{Text}
use adjudication.Arb.Context.{RunContext}

abbrev pub Action : Type 0 → Type 0 → Type 0
Action World A = RunContext World → RunContext World × Result Text A

module _ {World : Type 0} where
  -- The rest of a method, after a call that may have failed.
  abbrev pub continue :
      {A B : Type 0}
      → (A → Action World B)
      → RunContext World × Result Text A
      → RunContext World × Result Text B
  continue f (c, ok a) = f a c
  continue f (c, err e) = (c, err e)

  infixl 5 ◌>>=◌ ◌>>◌
  abbrev pub ◌>>=◌ : {A B : Type 0} → Action World A → (A → Action World B) → Action World B
  ◌>>=◌ m f c = continue f (m c)

  abbrev pub ◌>>◌ : {B : Type 0} → Action World (Unit {0}) → Action World B → Action World B
  m >> k = m >>= λ _. k

  abbrev pub return : {A : Type 0} → A → Action World A
  return a c = (c, ok a)

  abbrev pub fail : {A : Type 0} → Text → Action World A
  fail e c = (c, err e)

  abbrev pub reject_if : Bool → Text → Action World (Unit {0})
  reject_if true e c = (c, err e)
  reject_if false e c = (c, ok tt)

  -- A result that changes nothing.
  abbrev pub lift : {A : Type 0} → Result Text A → Action World A
  lift r c = (c, r)

  -- Whatever the outcome, the property still holds.
  abbrev pub Keeps : {A : Type 0} → (RunContext World → Type 0) → Action World A → Type 0
  Keeps P m = (c : RunContext World) → P c → P (m c).0

  continue-Keeps :
      {A B : Type 0} (P : RunContext World → Type 0) (f : A → Action World B)
      (r : RunContext World × Result Text A)
      → ((a : A) → Keeps P (f a))
      → P r.0
      → P (continue f r).0
  continue-Keeps P f (c, ok a) k h = k a c h
  continue-Keeps P f (c, err e) k h = h

  pub >>=-Keeps :
      {A B : Type 0} (P : RunContext World → Type 0) (m : Action World A) (f : A → Action World B)
      → Keeps P m
      → ((a : A) → Keeps P (f a))
      → Keeps P (m >>= f)
  >>=-Keeps P m f km kf c h = continue-Keeps P f (m c) kf (km c h)

  pub reject_if-Keeps :
      (P : RunContext World → Type 0) (b : Bool) (e : Text) → Keeps P (reject_if b e)
  reject_if-Keeps P true e c h = h
  reject_if-Keeps P false e c h = h

  continue-eq-ok :
      {A B : Type 0} (f : A → Action World B) (r : RunContext World × Result Text A)
      (d : RunContext World) (b : B)
      → continue f r ≡ (d, ok b)
      → (a : A) × (c : RunContext World) × (r ≡ (c, ok a)) × (f a c ≡ (d, ok b))
  continue-eq-ok f (c, ok a) d b h = (a, c, refl, h)
  continue-eq-ok f (c, err e) d b h = ground arith

  -- Inversion of a chain that succeeded.
  pub >>=-eq-ok :
      {A B : Type 0} (m : Action World A) (f : A → Action World B) (c d : RunContext World) (b : B)
      → (m >>= f) c ≡ (d, ok b)
      → (a : A) × (mid : RunContext World) × (m c ≡ (mid, ok a)) × (f a mid ≡ (d, ok b))
  >>=-eq-ok m f c d b h = continue-eq-ok f (m c) d b h
