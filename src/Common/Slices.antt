-- ===== src/Common/Slices.antt =====
-- Laws of take, drop and set, and the last elements of a list.
use Prim.Native.Nat.{ℕ, zero, suc, ◌+◌, ◌-◌, ◌≤◌, ◌<◌}
use mathlib.Core.Path.{◌≡◌, refl, ap}
use mathlib.Core.Bool.{◌||◌}
use mathlib.Core.List.{List, [], ◌∷◌, ◌++◌}
use native.Mathlib.Omega.{arith}
use sense_grid.Common.Logic.{Eq}
use sense_grid.Common.Lists.{length, length-append, length-drop, take, drop, set, contains}

module _ {A : Type 0} where
  -- The last `n` of a list.
  abbrev pub last : ℕ → List A → List A
  last n xs = drop (length xs - n) xs

  pub drop-set : (xs : List A) (h : ℕ) (v : A) → drop (suc h) (set xs h v) ≡ drop (suc h) xs
  drop-set [] h v = refl
  drop-set (x ∷ xs) zero v = refl
  drop-set (x ∷ xs) (suc h) v = drop-set xs h v

  pub take-set :
      (xs : List A) (h : ℕ) (v : A)
      → h < length xs
      → take (suc h) (set xs h v) ≡ take h xs ++ v ∷ []
  take-set [] h v l = elim l [ ]
  take-set (x ∷ xs) zero v l = refl
  take-set (x ∷ xs) (suc h) v l = ap (◌∷◌ x) (take-set xs h v (omega arith))

  pub drop-drop_append :
      (xs ys : List A) (h : ℕ) → h < length xs → drop 1 (drop h xs ++ ys) ≡ drop (suc h) xs ++ ys
  drop-drop_append [] ys h l = elim l [ ]
  drop-drop_append (x ∷ xs) ys zero l = refl
  drop-drop_append (x ∷ xs) ys (suc h) l = drop-drop_append xs ys h (omega arith)

  pub drop_all : (xs : List A) (n : ℕ) → length xs ≤ n → drop n xs ≡ []
  drop_all [] zero l = refl
  drop_all [] (suc n) l = refl
  drop_all (x ∷ xs) zero l = elim l [ ]
  drop_all (x ∷ xs) (suc n) l = drop_all xs n (omega arith)

  pub take_all : (xs : List A) (n : ℕ) → length xs ≤ n → take n xs ≡ xs
  take_all [] zero l = refl
  take_all [] (suc n) l = refl
  take_all (x ∷ xs) zero l = elim l [ ]
  take_all (x ∷ xs) (suc n) l = ap (◌∷◌ x) (take_all xs n (omega arith))

  pub length-set : (xs : List A) (i : ℕ) (v : A) → length (set xs i v) ≡ length xs
  length-set [] i v = refl
  length-set (x ∷ xs) zero v = refl
  length-set (x ∷ xs) (suc i) v = ap suc (length-set xs i v)

  pub take-drop : (n : ℕ) (xs : List A) → take n xs ++ drop n xs ≡ xs
  take-drop zero xs = refl
  take-drop (suc n) [] = refl
  take-drop (suc n) (x ∷ xs) = ap (◌∷◌ x) (take-drop n xs)

  pub drop-append : (n : ℕ) (xs ys : List A) → n ≤ length xs → drop n (xs ++ ys) ≡ drop n xs ++ ys
  drop-append zero xs ys l = refl
  drop-append (suc n) [] ys l = elim l [ ]
  drop-append (suc n) (x ∷ xs) ys l = drop-append n xs ys (omega arith)

  pub drop-suc : (n : ℕ) (xs : List A) → drop 1 (drop n xs) ≡ drop (suc n) xs
  drop-suc zero xs = refl
  drop-suc (suc n) [] = refl
  drop-suc (suc n) (x ∷ xs) = drop-suc n xs

  pub drop-drop : (m k n : ℕ) (xs : List A) → n ≡ m + k → drop k (drop m xs) ≡ drop n xs
  drop-drop zero k n xs e = let e' : n ≡ k = omega arith in rw e'
  drop-drop (suc m) k zero xs e = absurd (omega arith)
  drop-drop (suc m) zero (suc n) [] e = refl
  drop-drop (suc m) (suc k) (suc n) [] e = refl
  drop-drop (suc m) k (suc n) (x ∷ xs) e = drop-drop m k n xs (omega arith)

  pub last-last : (n : ℕ) (xs ys : List A) → last n (last n xs ++ ys) ≡ last n (xs ++ ys)
  last-last n xs ys =
      let m : ℕ = length xs - n in
      rw (← drop-append m xs ys (omega arith)) (
        drop-drop m (length (drop m (xs ++ ys)) - n) (length (xs ++ ys) - n) (xs ++ ys)
          (omega (arith, length-drop m (xs ++ ys), length-append xs ys)))

module _ {A : Type 0} ⦃e : Eq A⦄ where
  pub contains-append :
      (q : A) (xs ys : List A) → contains q (xs ++ ys) ≡ (contains q xs || contains q ys)
  contains-append q [] ys = refl
  contains-append q (x ∷ xs) ys = ground (arith, contains-append q xs ys)
