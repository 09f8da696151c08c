-- ===== src/Fleet/Indices.antt =====
-- The slots of the fleet by their index, and the lists of slots that Scale starts and stops.
use sense_grid.Common.{
  ℕ, zero, suc, ◌+◌, ◌<◌, ◌||◌, ◌≡◌, refl, true, false, ◌&&◌, not, List, [], ◌∷◌, arith, ltb,
  nat_eq, nat_Eq, ==_refl, if◌then◌else◌, length, set, contains, All,
}
use sense_grid.Fleet.Manager.{DeviceSlot, grow, to_start, to_stop, slot_at}

pub slot_at-set :
    (ds : List DeviceSlot) (i j : ℕ) (s : DeviceSlot)
    → i < length ds
    → slot_at j (set ds i s) ≡ (if nat_eq i j then s else slot_at j ds)
slot_at-set [] i j s l = elim l [ ]
slot_at-set (d ∷ ds) zero zero s l = refl
slot_at-set (d ∷ ds) zero (suc j) s l = ground arith
slot_at-set (d ∷ ds) (suc i) zero s l = ground arith
slot_at-set (d ∷ ds) (suc i) (suc j) s l = ground (arith, slot_at-set ds i j s (omega arith))

pub slot_at-grow : (n j : ℕ) (ds : List DeviceSlot) → slot_at j (grow n ds) ≡ slot_at j ds
slot_at-grow zero j ds = refl
slot_at-grow (suc n) zero [] = refl
slot_at-grow (suc n) (suc j) [] = slot_at-grow n j []
slot_at-grow (suc n) zero (d ∷ ds) = refl
slot_at-grow (suc n) (suc j) (d ∷ ds) = slot_at-grow n j ds

pub length-grow :
    (n k : ℕ) (ds : List DeviceSlot) → ltb k (length (grow n ds)) ≡ (ltb k n || ltb k (length ds))
length-grow zero k ds = ground arith
length-grow (suc n) zero [] = ground arith
length-grow (suc n) (suc k) [] = ground (arith, length-grow n k [])
length-grow (suc n) zero (d ∷ ds) = ground arith
length-grow (suc n) (suc k) (d ∷ ds) = ground (arith, length-grow n k ds)

to_start_later :
    (target i k : ℕ) (ds : List DeviceSlot) → k < i → contains k (to_start target i ds) ≡ false
to_start_later target i k [] l = refl
to_start_later target i k (d ∷ ds) l =
    ground (arith, to_start_later target (suc i) k ds (omega arith))

pub contains-to_start :
    (target i k j : ℕ) (ds : List DeviceSlot)
    → j ≡ i + k
    → contains j (to_start target i ds)
      ≡ (ltb k (length ds) && (ltb j target && not (slot_at k ds).running))
contains-to_start target i k j [] e = ground arith
contains-to_start target i zero j (d ∷ ds) e =
    ground (arith, to_start_later target (suc i) j ds (omega arith))
contains-to_start target i (suc k) j (d ∷ ds) e =
    ground (arith, contains-to_start target (suc i) k j ds (omega arith))

to_stop_later :
    (target i k : ℕ) (ds : List DeviceSlot) → k < i → contains k (to_stop target i ds) ≡ false
to_stop_later target i k [] l = refl
to_stop_later target i k (d ∷ ds) l =
    ground (arith, to_stop_later target (suc i) k ds (omega arith))

pub contains-to_stop :
    (target i k j : ℕ) (ds : List DeviceSlot)
    → j ≡ i + k
    → contains j (to_stop target i ds)
      ≡ (ltb k (length ds) && (not (ltb j target) && (slot_at k ds).running))
contains-to_stop target i k j [] e = ground arith
contains-to_stop target i zero j (d ∷ ds) e =
    ground (arith, to_stop_later target (suc i) j ds (omega arith))
contains-to_stop target i (suc k) j (d ∷ ds) e =
    ground (arith, contains-to_stop target (suc i) k j ds (omega arith))

abbrev pub Inside : ℕ → List ℕ → Type 0
Inside n is = All (λ i. i < n) is

pub contained-Inside :
    (n : ℕ) (is : List ℕ) → ((j : ℕ) → contains j is ≡ true → j < n) → Inside n is
contained-Inside n [] h = tt
contained-Inside n (i ∷ is) h =
    (h i (ground (arith, ==_refl i)), contained-Inside n is (λ j e. h j (ground arith)))

pub slot_at-other :
    (ds : List DeviceSlot) (i j : ℕ) (s : DeviceSlot)
    → i < length ds
    → nat_eq i j ≡ false
    → slot_at j (set ds i s) ≡ slot_at j ds
slot_at-other ds i j s l e = ground (arith, slot_at-set ds i j s l)

pub slot_at-inside :
    (ds : List DeviceSlot) (j : ℕ) → (slot_at j ds).running ≡ true → ltb j (length ds) ≡ true
slot_at-inside [] j e = ground arith
slot_at-inside (d ∷ ds) zero e = ground arith
slot_at-inside (d ∷ ds) (suc j) e = ground (arith, slot_at-inside ds j e)
