-- ===== src/Telemetry/Split.antt =====
-- strings.Split at a one-byte separator, and joining again.
use sense_grid.Common.{
  ℕ, ◌≡◌, refl, ap, sym, subst, ◌∙◌, ◌↔◌, inl, inr, false, List, [], ◌∷◌, ◌++◌, arith, nat_eq,
  if◌then◌else◌, Text, contains, nat_Eq, All, Bool-cases,
}

abbrev pub cons_head : ℕ → List Text → List Text
cons_head b [] = (b ∷ []) ∷ []
cons_head b (p ∷ ps) = (b ∷ p) ∷ ps

unfoldable pub split : ℕ → Text → List Text
split sep [] = [] ∷ []
split sep (b ∷ bs) = let rest = split sep bs in if nat_eq b sep then [] ∷ rest else cons_head b rest

unfoldable pub join : ℕ → List Text → Text
join sep [] = []
join sep (p ∷ []) = p
join sep (p ∷ q ∷ ps) = p ++ sep ∷ join sep (q ∷ ps)

-- The text has no separator.
abbrev pub IsPart : ℕ → Text → Type 0
IsPart sep t = contains sep t ≡ false

pub split-part : (sep : ℕ) (p : Text) → IsPart sep p → split sep p ≡ p ∷ []
unfolding split
split-part sep [] h = refl
split-part sep (b ∷ p) h = ground (arith, split-part sep p)

pub split-more : (sep : ℕ) (p t : Text) → IsPart sep p → split sep (p ++ sep ∷ t) ≡ p ∷ split sep t
unfolding split
split-more sep [] t h = ground arith
split-more sep (b ∷ p) t h = ground (arith, split-more sep p t)

pub split-cons : (sep : ℕ) (t : Text) → (p : Text) × (ps : List Text) × (split sep t ≡ p ∷ ps)
unfolding split
split-cons sep [] = ([], [], refl)
split-cons sep (b ∷ t) = elim (Bool-cases (nat_eq b sep)) [
  | inl e ↦ ([], split sep t, rw e refl)
  | inr e ↦ let (p, ps, q) = split-cons sep t in (b ∷ p, ps, rw e (ap (cons_head b) q))
]

join-cons_head :
    (sep b : ℕ) (ps : List Text)
    → ((p : Text) × (qs : List Text) × (ps ≡ p ∷ qs))
    → join sep (cons_head b ps) ≡ b ∷ join sep ps
unfolding join
join-cons_head sep b [] (p, qs, e) = cc
join-cons_head sep b (p ∷ []) h = refl
join-cons_head sep b (p ∷ q ∷ ps) h = refl

join-nil :
    (sep : ℕ) (ps : List Text)
    → ((p : Text) × (qs : List Text) × (ps ≡ p ∷ qs))
    → join sep ([] ∷ ps) ≡ sep ∷ join sep ps
unfolding join
join-nil sep [] (p, qs, e) = cc
join-nil sep (q ∷ ps) h = refl

pub join-split : (sep : ℕ) (t : Text) → join sep (split sep t) ≡ t
unfolding split join
join-split sep [] = refl
join-split sep (b ∷ t) = ground (
  arith,
  join-split sep t,
  join-nil sep (split sep t) (split-cons sep t),
  join-cons_head sep b (split sep t) (split-cons sep t),
)

All-cons_head :
    (sep b : ℕ) (ps : List Text)
    → nat_eq b sep ≡ false
    → All (IsPart sep) ps
    → All (IsPart sep) (cons_head b ps)
All-cons_head sep b [] d a = (ground arith, tt)
All-cons_head sep b (p ∷ ps) d (h, a) = (ground arith, a)

pub split-All : (sep : ℕ) (t : Text) → All (IsPart sep) (split sep t)
unfolding split
split-All sep [] = (refl, tt)
split-All sep (b ∷ t) = elim (Bool-cases (nat_eq b sep)) [
  | inl e ↦ rw e (refl, split-All sep t)
  | inr e ↦ rw e (All-cons_head sep b (split sep t) e (split-All sep t))
]

pub split-join :
    (sep : ℕ) (p : Text) (ps : List Text)
    → All (IsPart sep) (p ∷ ps)
    → split sep (join sep (p ∷ ps)) ≡ p ∷ ps
unfolding join
split-join sep p [] (h, a) = split-part sep p h
split-join sep p (q ∷ ps) (h, a) =
    split-more sep p (join sep (q ∷ ps)) h ∙ ap (λ l. p ∷ l) (split-join sep q ps a)

pub split-join_iff :
    (sep : ℕ) (t p : Text) (ps : List Text)
    → (split sep t ≡ p ∷ ps) ↔ ((t ≡ join sep (p ∷ ps)) × All (IsPart sep) (p ∷ ps))
split-join_iff sep t p ps = (
  λ e. (sym (join-split sep t) ∙ ap (join sep) e, subst (All (IsPart sep)) e (split-All sep t)),
  λ (e, a). ap (split sep) e ∙ split-join sep p ps a,
)
