-- ===== src/Prelude/Text/Trim.antt =====
-- Trimming: what is trimmed stays as it is.
use adjudication.Prelude.Tests.{Bool-cases}
use adjudication.Prelude.Lists.{All}
use adjudication.Prelude.Text.{
  Text, trim_left, trim_cons, trim_right, trim, trim_space, is_space, is_empty,
}
use Prim.Native.Nat.{ℕ}
use mathlib.Core.Path.{◌≡◌, refl, ap, ◌∙◌, subst}
use mathlib.Core.Logic.{◌⊎◌, inl, inr}
use mathlib.Core.Bool.{Bool, true, false}
use mathlib.Core.List.{[], ◌∷◌, ◌++◌}
use native.Mathlib.Omega.{arith}

module _ (p : ℕ → Bool) where
  trim_right-cons : (c : ℕ) (s : Text) → p c ≡ false → trim_right p (c ∷ s) ≡ c ∷ trim_right p s
  unfolding trim_right
  trim_right-cons c s h = go (trim_right p s)
    where
      go : (t : Text) → trim_cons p c t ≡ c ∷ t
      go [] = rw h
      go (d ∷ t) = refl

  trim_cons-again :
      (c : ℕ) (t : Text) → trim_right p t ≡ t → trim_right p (trim_cons p c t) ≡ trim_cons p c t
  unfolding trim_right
  trim_cons-again c [] h = elim (Bool-cases (p c)) [ inl e ↦ ground arith | inr e ↦ ground arith ]
  trim_cons-again c (d ∷ t) h = rw h

  trim_right_idem : (s : Text) → trim_right p (trim_right p s) ≡ trim_right p s
  unfolding trim_right
  trim_right_idem [] = refl
  trim_right_idem (c ∷ s) = trim_cons-again c (trim_right p s) (trim_right_idem s)

  trim_left_cases :
      (s : Text)
      → (trim_left p s ≡ []) ⊎ ((c : ℕ) × (t : Text) × (p c ≡ false) × (trim_left p s ≡ c ∷ t))
  unfolding trim_left
  trim_left_cases [] = inl refl
  trim_left_cases (c ∷ s) = elim (Bool-cases (p c)) [
    | inl e ↦ rw e (trim_left_cases s)
    | inr e ↦ inr (c, s, e, rw e)
  ]

  trim_left-kept : (c : ℕ) (t : Text) → p c ≡ false → trim_left p (c ∷ t) ≡ c ∷ t
  unfolding trim_left
  trim_left-kept c t h = rw h

  -- On a text that begins with a kept character.
  trim_kept :
      (c : ℕ) (t : Text)
      → p c ≡ false
      → trim_right p (trim_left p (trim_right p (c ∷ t))) ≡ trim_right p (c ∷ t)
  trim_kept c t h =
      rw
        (
          trim_right-cons c t h,
          trim_left-kept c (trim_right p t) h,
          trim_right-cons c (trim_right p t) h,
        )
        (ap (◌∷◌ c) (trim_right_idem t))

  pub trim_idem : (s : Text) → trim p (trim p s) ≡ trim p s
  unfolding trim
  trim_idem s = elim (trim_left_cases s) [
    | inl e ↦ rw e (unfold trim_left trim_right in refl)
    | inr (c, t, h, e) ↦ rw e (trim_kept c t h)
  ]

  trim_right_id : (s : Text) → All (λ c. p c ≡ false) s → trim_right p s ≡ s
  unfolding trim_right
  trim_right_id [] h = refl
  trim_right_id (c ∷ s) h = trim_right-cons c s h.0 ∙ ap (◌∷◌ c) (trim_right_id s h.1)

  trim_left_id : (s : Text) → All (λ c. p c ≡ false) s → trim_left p s ≡ s
  trim_left_id [] h = unfold trim_left in refl
  trim_left_id (c ∷ s) h = trim_left-kept c s h.0

  -- A text without such characters stays whole.
  pub trim_id : (s : Text) → All (λ c. p c ≡ false) s → trim p s ≡ s
  unfolding trim
  trim_id s h = rw (trim_left_id s h) (trim_right_id s h)

  trim_right-append :
      (s t : Text) → trim_right p t ≡ t → is_empty t ≡ false → trim_right p (s ++ t) ≡ s ++ t
  unfolding trim_right is_empty
  trim_right-append [] t h k = h
  trim_right-append (c ∷ s) t h k = rw (trim_right-append s t h k) (kept_behind c s t k)
    where
      kept_behind : (c : ℕ) (s t : Text) → is_empty t ≡ false → trim_cons p c (s ++ t) ≡ c ∷ s ++ t
      kept_behind c (d ∷ s) t k = refl
      kept_behind c [] (d ∷ t) k = refl
      kept_behind c [] [] k = ground arith

  -- What is trimmed begins with a character that is kept.
  trim-first : (s : Text) (c : ℕ) (t : Text) → trim p s ≡ c ∷ t → p c ≡ false
  unfolding trim trim_right
  trim-first s c t h = elim (trim_left_cases s) [
    | inl e ↦ let no : [] ≡ c ∷ t = rw e at h in ground arith
    | inr (d, u, k, e) ↦
        let same : d ∷ trim_right p u ≡ c ∷ t = rw (e, trim_right-cons d u k) at h in ground arith
  ]

  trim-right : (t : Text) → trim p t ≡ t → trim_right p t ≡ t
  unfolding trim
  trim-right t h = subst (λ u. trim_right p u ≡ u) h (trim_right_idem (trim_left p t))

  -- Between two trimmed ends, nothing is trimmed.
  pub trim-append :
      (s mid t : Text)
      → trim p s ≡ s
      → is_empty s ≡ false
      → trim p t ≡ t
      → is_empty t ≡ false
      → trim p (s ++ mid ++ t) ≡ s ++ mid ++ t
  unfolding trim is_empty
  trim-append [] mid t hs ks ht kt = ground arith
  trim-append (c ∷ s) mid t hs ks ht kt =
      rw (trim_left-kept c (s ++ mid ++ t) (trim-first (c ∷ s) c s hs))
        (trim_right-append ((c ∷ s) ++ mid) t (trim-right t ht) kt)

  trim_right-space : (s : Text) (c : ℕ) → p c ≡ true → trim_right p (s ++ c ∷ []) ≡ trim_right p s
  unfolding trim_right
  trim_right-space [] c h = rw h refl
  trim_right-space (d ∷ s) c h = rw (trim_right-space s c h) refl

  -- A character behind them is trimmed.
  pub trim-behind :
      (s mid t : Text) (c : ℕ)
      → p c ≡ true
      → trim p s ≡ s
      → is_empty s ≡ false
      → trim p t ≡ t
      → is_empty t ≡ false
      → trim p (s ++ mid ++ t ++ c ∷ []) ≡ s ++ mid ++ t
  unfolding trim is_empty
  trim-behind [] mid t c pc hs ks ht kt = ground arith
  trim-behind (d ∷ s) mid t c pc hs ks ht kt =
      rw (trim_left-kept d (s ++ mid ++ t ++ c ∷ []) (trim-first (d ∷ s) d s hs)) (
        trim_right-space ((d ∷ s) ++ mid ++ t) c pc
        ∙ trim_right-append ((d ∷ s) ++ mid) t (trim-right t ht) kt)

  trim-around :
      (s : Text) (c d : ℕ)
      → p c ≡ true
      → p d ≡ true
      → trim p s ≡ s
      → is_empty s ≡ false
      → trim p (c ∷ s ++ d ∷ []) ≡ s
  unfolding trim trim_left is_empty
  trim-around [] c d pc pd hs ks = ground arith
  trim-around (e ∷ s) c d pc pd hs ks =
      rw (pc, trim-first (e ∷ s) e s hs) (trim_right-space (e ∷ s) d pd ∙ trim-right (e ∷ s) hs)

pub trim_space_idem : (s : Text) → trim_space (trim_space s) ≡ trim_space s
unfolding trim_space
trim_space_idem s = trim_idem is_space s

pub trim_space_id : (s : Text) → All (λ c. is_space c ≡ false) s → trim_space s ≡ s
unfolding trim_space
trim_space_id s h = trim_id is_space s h

pub trim_space-append :
    (s mid t : Text)
    → trim_space s ≡ s
    → is_empty s ≡ false
    → trim_space t ≡ t
    → is_empty t ≡ false
    → trim_space (s ++ mid ++ t) ≡ s ++ mid ++ t
unfolding trim_space
trim_space-append s mid t = trim-append is_space s mid t

pub trim_space-behind :
    (s mid t : Text) (c : ℕ)
    → is_space c ≡ true
    → trim_space s ≡ s
    → is_empty s ≡ false
    → trim_space t ≡ t
    → is_empty t ≡ false
    → trim_space (s ++ mid ++ t ++ c ∷ []) ≡ s ++ mid ++ t
unfolding trim_space
trim_space-behind s mid t c = trim-behind is_space s mid t c

pub trim_space-around :
    (s : Text) (c d : ℕ)
    → is_space c ≡ true
    → is_space d ≡ true
    → trim_space s ≡ s
    → is_empty s ≡ false
    → trim_space (c ∷ s ++ d ∷ []) ≡ s
unfolding trim_space
trim_space-around s c d = trim-around is_space s c d
