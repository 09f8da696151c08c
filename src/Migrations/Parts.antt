-- ===== src/Migrations/Parts.antt =====
-- strings.Split, strings.Join and strings.TrimSpace of Migrations/Split.antt.
use mathlib.Core.List.{reverse, reverse-cons, reverse-append, append_assoc}
use sense_grid.Common.{
  ℕ, ◌≡◌, refl, sym, ap, ◌∙◌, inl, inr, Bool, true, false, List, [], ◌∷◌, ◌++◌, arith, nat_eq,
  nat_eq_iff, nat_Eq, Text, contains, keep, Bool-cases,
}
use sense_grid.Migrations.Split.{is_space, trim_left, trim_space, push_front, split, join}

pub split-cons :
    (sep : ℕ) (s : Text) → (part : Text) × (parts : List Text) × (split sep s ≡ part ∷ parts)
unfolding split push_front
split-cons sep [] = ([], [], refl)
split-cons sep (b ∷ s) = elim (Bool-cases (nat_eq b sep)) [
  | inl here ↦ ([], split sep s, rw here refl)
  | inr other ↦ let (part, parts, e) = split-cons sep s in (b ∷ part, parts, rw other (rw e refl))
]

push_front-append :
    (b : ℕ) (part : Text) (xs ys : List Text)
    → push_front b ((part ∷ xs) ++ ys) ≡ push_front b (part ∷ xs) ++ ys
unfolding push_front
push_front-append b part xs ys = refl

pub split-append :
    (sep : ℕ) (s rest : Text) → split sep (s ++ sep ∷ rest) ≡ split sep s ++ split sep rest
unfolding split
split-append sep [] rest = rw ((nat_eq_iff sep sep).1 refl) refl
split-append sep (b ∷ s) rest = elim (Bool-cases (nat_eq b sep)) [
  | inl here ↦ rw here (ap (◌∷◌ []) (split-append sep s rest))
  | inr other ↦
      let (part, parts, e) = split-cons sep s in
      rw other (
        ap (push_front b) (split-append sep s rest)
        ∙ rw e (push_front-append b part parts (split sep rest)))
]

pub split_whole : (sep : ℕ) (s : Text) → contains sep s ≡ false → split sep s ≡ s ∷ []
unfolding split push_front
split_whole sep [] h = refl
split_whole sep (b ∷ s) h = ground (arith, split_whole sep s)

join-cons :
    (sep b : ℕ) (part : Text) (parts : List Text)
    → join sep (push_front b (part ∷ parts)) ≡ b ∷ join sep (part ∷ parts)
unfolding join push_front
join-cons sep b part [] = refl
join-cons sep b part (next ∷ parts) = refl

pub join-split : (sep : ℕ) (s : Text) → join sep (split sep s) ≡ s
unfolding split join
join-split sep [] = refl
join-split sep (b ∷ s) = elim (Bool-cases (nat_eq b sep)) [
  | inl here ↦
      let (part, parts, e) = split-cons sep s in
      rw here (
        rw e (ap (◌∷◌ sep) (ap (join sep) (sym e) ∙ join-split sep s))
        ∙ ap (λ (k : ℕ). k ∷ s) (sym ((nat_eq_iff b sep).0 here)))
  | inr other ↦
      let (part, parts, e) = split-cons sep s in
      rw other
        (rw e (join-cons sep b part parts ∙ ap (◌∷◌ b) (ap (join sep) (sym e) ∙ join-split sep s)))
]

pub join-append :
    (sep : ℕ) (x y : Text) (xs ys : List Text)
    → join sep ((x ∷ xs) ++ y ∷ ys) ≡ join sep (x ∷ xs) ++ sep ∷ join sep (y ∷ ys)
unfolding join
join-append sep x y [] ys = refl
join-append sep x y (next ∷ xs) ys =
    ap (λ (t : Text). x ++ sep ∷ t) (join-append sep next y xs ys)
    ∙ sym (append_assoc x (sep ∷ join sep (next ∷ xs)) (sep ∷ join sep (y ∷ ys)))

-- Trimming.
trim_left-append :
    (b : ℕ) (s : Text) → is_space b ≡ false → trim_left (s ++ b ∷ []) ≡ trim_left s ++ b ∷ []
unfolding trim_left
trim_left-append b [] h = rw h refl
trim_left-append b (a ∷ s) h = elim (Bool-cases (is_space a)) [
  | inl blank ↦ rw blank (trim_left-append b s h)
  | inr solid ↦ rw solid refl
]

-- Trimming at the end keeps a first byte that is no white space.
pub trim_right-solid :
    (b : ℕ) (s : Text)
    → is_space b ≡ false
    → reverse (trim_left (reverse (b ∷ s))) ≡ b ∷ reverse (trim_left (reverse s))
trim_right-solid b s h =
    ap (λ (x : Text). reverse (trim_left x)) (reverse-cons b s)
    ∙ ap reverse (trim_left-append b (reverse s) h)
    ∙ reverse-append (trim_left (reverse s)) (b ∷ [])

pub trim_space-solid :
    (b : ℕ) (s : Text)
    → is_space b ≡ false
    → trim_space (b ∷ s) ≡ b ∷ reverse (trim_left (reverse s))
unfolding trim_space trim_left
trim_space-solid b s h = rw (h, trim_left) (trim_right-solid b s h)

pub trim_space-blank : (b : ℕ) (s : Text) → is_space b ≡ true → trim_space (b ∷ s) ≡ trim_space s
unfolding trim_space trim_left
trim_space-blank b s h = rw h refl

pub keep-append : (p : Text → Bool) (xs ys : List Text) → keep p (xs ++ ys) ≡ keep p xs ++ keep p ys
keep-append p [] ys = refl
keep-append p (x ∷ xs) ys = ground (arith, keep-append p xs ys)
