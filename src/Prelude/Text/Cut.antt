-- ===== src/Prelude/Text/Cut.antt =====
-- Searching and cutting texts: `strings.Cut`, `Contains`, `ContainsAny`, `EqualFold` and `Split`.
use adjudication.Prelude.Tests.{if◌then◌else◌, ◌==◌, Bool-cases, ||-false, ==-refl, ==→eq}
use adjudication.Prelude.Lists.{length, drop}
use adjudication.Prelude.Text.{Text, has_prefix, contains, is_empty}
use Prim.Native.Nat.{ℕ}
use mathlib.Core.Path.{◌≡◌, refl, ap, ap₂, sym, ◌∙◌}
use mathlib.Core.Logic.{inl, inr}
use mathlib.Core.Bool.{Bool, false, ◌||◌}
use mathlib.Core.Option.{Option, none, some}
use mathlib.Core.List.{List, [], ◌∷◌, ◌++◌, append_assoc}
use native.Mathlib.Omega.{arith}

abbrev push_front : ℕ → Option (Text × Text) → Option (Text × Text)
push_front c none = none
push_front c (some (before, after)) = some (c ∷ before, after)

-- `strings.Cut`: around the first place where `sep` stands.
unfoldable pub cut : Text → Text → Option (Text × Text)
cut sep [] = if is_empty sep then some ([], []) else none
cut sep (c ∷ s) =
    let later = push_front c (cut sep s) in
    if has_prefix (c ∷ s) sep then some ([], drop (length sep) (c ∷ s)) else later

-- `strings.Contains`.
unfoldable pub contains_text : Text → Text → Bool
contains_text sub [] = is_empty sub
contains_text sub (c ∷ s) = has_prefix (c ∷ s) sub || contains_text sub s

-- `strings.ContainsAny(s, set)`.
unfoldable pub contains_any : Text → Text → Bool
contains_any set [] = false
contains_any set (c ∷ s) = contains c set || contains_any set s

-- `strings.Split(s, sep)` for a separator of one character.
split_on : ℕ → Text → Text × List Text
split_on sep [] = ([], [])
split_on sep (c ∷ s) =
    let (first, rest) = split_on sep s in if c == sep then ([], first ∷ rest) else (c ∷ first, rest)

unfoldable pub split : ℕ → Text → List Text
unfolding split_on
split sep s = let (first, rest) = split_on sep s in first ∷ rest

-- `strings.Join` with a separator of one character.
unfoldable pub join : ℕ → List Text → Text
join sep [] = []
join sep (s ∷ []) = s
join sep (s ∷ t ∷ rest) = s ++ sep ∷ join sep (t ∷ rest)

other_char :
    (sep c : ℕ) (line : Text)
    → contains sep (c ∷ line) ≡ false
    → ((c == sep) ≡ false) × (contains sep line ≡ false)
unfolding contains
other_char sep c line h =
    let (p, q) = ||-false (sep == c) (contains sep line) h in (ground arith, q)

split_on-line :
    (sep : ℕ) (line rest : Text)
    → contains sep line ≡ false
    → split_on sep (line ++ sep ∷ rest) ≡ (line, split sep rest)
unfolding split split_on
split_on-line sep [] rest h = rw (==-refl sep) refl
split_on-line sep (c ∷ line) rest h =
    let (p, q) = other_char sep c line h in rw (p, split_on-line sep line rest q) refl

split_on-last : (sep : ℕ) (line : Text) → contains sep line ≡ false → split_on sep line ≡ (line, [])
unfolding split_on
split_on-last sep [] h = refl
split_on-last sep (c ∷ line) h =
    let (p, q) = other_char sep c line h in rw (p, split_on-last sep line q) refl

-- A line without the separator comes off whole.
pub split-line :
    (sep : ℕ) (line rest : Text)
    → contains sep line ≡ false
    → split sep (line ++ sep ∷ rest) ≡ line ∷ split sep rest
unfolding split
split-line sep line rest h = rw (split_on-line sep line rest h) refl

pub split-last : (sep : ℕ) (line : Text) → contains sep line ≡ false → split sep line ≡ line ∷ []
unfolding split
split-last sep line h = rw (split_on-last sep line h) refl

-- A scheme without a slash is what stands in front of "://".
pub cut-scheme :
    (scheme rest : Text)
    → contains b'/' scheme ≡ false
    → cut (b':' ∷ b'/' ∷ b'/' ∷ []) (scheme ++ b':' ∷ b'/' ∷ b'/' ∷ rest) ≡ some (scheme, rest)
unfolding cut has_prefix
cut-scheme [] rest h = refl
cut-scheme (c ∷ []) rest h = elim (Bool-cases (c == b':')) [ inl e ↦ rw e refl | inr e ↦ rw e refl ]
cut-scheme (c ∷ d ∷ scheme) rest h =
    let (p, q) = other_char b'/' c (d ∷ scheme) h in
    let (r, s) = other_char b'/' d scheme q in
    let again = cut-scheme (d ∷ scheme) rest q in
    elim (Bool-cases (c == b':')) [ inl e ↦ rw (e, r, again) refl | inr e ↦ rw (e, again) refl ]

split_on-snoc :
    (sep : ℕ) (s : Text)
    → split_on sep (s ++ sep ∷ []) ≡ ((split_on sep s).0, (split_on sep s).1 ++ [] ∷ [])
unfolding split_on
split_on-snoc sep [] = rw (==-refl sep) refl
split_on-snoc sep (c ∷ s) = elim (Bool-cases (c == sep)) [
  | inl e ↦ rw (e, split_on-snoc sep s) refl
  | inr e ↦ rw (e, split_on-snoc sep s) refl
]

-- A separator at the end adds an empty part.
pub split-snoc : (sep : ℕ) (s : Text) → split sep (s ++ sep ∷ []) ≡ split sep s ++ [] ∷ []
unfolding split
split-snoc sep s = rw (split_on-snoc sep s) refl

join-cons :
    (sep c : ℕ) (s : Text) (rest : List Text) → join sep ((c ∷ s) ∷ rest) ≡ c ∷ join sep (s ∷ rest)
unfolding join
join-cons sep c s [] = refl
join-cons sep c s (t ∷ rest) = refl

join-empty :
    (sep : ℕ) (s : Text) (rest : List Text) → join sep ([] ∷ s ∷ rest) ≡ sep ∷ join sep (s ∷ rest)
unfolding join
join-empty sep s rest = refl

-- Joining the parts of a text gives the text.
pub join-split : (sep : ℕ) (s : Text) → join sep (split sep s) ≡ s
unfolding split split_on
join-split sep [] = unfold join in refl
join-split sep (c ∷ s) = elim (Bool-cases (c == sep)) [
  | inl e ↦ rw e (
      join-empty sep (split_on sep s).0 (split_on sep s).1
      ∙ ap₂ ◌∷◌ (sym (==→eq c sep e)) (join-split sep s))
  | inr e ↦
      rw (e, join-cons sep c (split_on sep s).0 (split_on sep s).1) (ap (◌∷◌ c) (join-split sep s))
]

-- An empty part at the end adds a separator.
pub join-snoc :
    (sep : ℕ) (s : Text) (parts : List Text)
    → join sep ((s ∷ parts) ++ [] ∷ []) ≡ join sep (s ∷ parts) ++ sep ∷ []
unfolding join
join-snoc sep s [] = refl
join-snoc sep s (t ∷ parts) =
    rw (join-snoc sep t parts) (sym (append_assoc s (sep ∷ join sep (t ∷ parts)) (sep ∷ [])))

pub join-empty-split : (sep : ℕ) (s : Text) → join sep ([] ∷ split sep s) ≡ sep ∷ s
unfolding split
join-empty-split sep s =
    join-empty sep (split_on sep s).0 (split_on sep s).1 ∙ ap (◌∷◌ sep) (join-split sep s)
