-- ===== src/Common/Io.antt =====
-- Results of calls that can fail, encoding/json as an interface, and sorting for ORDER BY.
use Prim.Native.Nat.{ℕ}
use mathlib.Core.List.{List, [], ◌∷◌}
use mathlib.Core.Option.{Option}
use mathlib.Core.Path.{◌≡◌, refl}
use mathlib.Core.Logic.{◌⊎◌, inl, inr}
use sense_grid.Common.Logic.{if◌then◌else◌, leb}
use sense_grid.Common.Bytes.{Text}

pub data Result {ℓ κ} (E : Type κ) (A : Type ℓ) : Type (ℓ ⊔ κ) where
  ok : A → Result E A
  err : E → Result E A

pub Result-cases {ℓ κ} :
    {E : Type κ}
    → {A : Type ℓ} → (x : Result E A) → ((e : E) × (x ≡ err e)) ⊎ ((a : A) × (x ≡ ok a))
Result-cases (ok a) = inr (a, refl)
Result-cases (err e) = inl (e, refl)

-- `a, err := m; if err != nil { return err }`.
infixl 5 ◌>>=◌
abbrev pub ◌>>=◌ {ℓ κ ν} :
    {E : Type ν} → {A : Type ℓ} → {B : Type κ} → Result E A → (A → Result E B) → Result E B
ok a >>= f = f a
err e >>= f = err e

pub >>=-ok {ℓ κ ν} :
    {E : Type ν}
    → {A : Type ℓ} → {B : Type κ} → (m : Result E A) (f : A → Result E B) (b : B) → (m >>= f) ≡ ok b
    → (a : A) × (m ≡ ok a) × (f a ≡ ok b)
>>=-ok (ok a) f b h = (a, refl, h)
>>=-ok (err e) f b h = cc

-- encoding/json on the values of one Go type. `unmarshal` gives none where it returns an error.
pub record Codec {ℓ} (A : Type ℓ) : Type ℓ where
  pub marshal : A → Option Text
  pub unmarshal : Text → Option A

-- `ORDER BY key DESC` and `ORDER BY key` by insertion.
module _ {ℓ} {A : Type ℓ} (key : A → ℕ) where
  abbrev pub insert_desc : A → List A → List A
  insert_desc a [] = a ∷ []
  insert_desc a (b ∷ l) = if leb (key b) (key a) then a ∷ b ∷ l else b ∷ insert_desc a l

  abbrev pub sort_desc : List A → List A
  sort_desc [] = []
  sort_desc (a ∷ l) = insert_desc a (sort_desc l)

  abbrev pub insert_asc : A → List A → List A
  insert_asc a [] = a ∷ []
  insert_asc a (b ∷ l) = if leb (key a) (key b) then a ∷ b ∷ l else b ∷ insert_asc a l

  abbrev pub sort_asc : List A → List A
  sort_asc [] = []
  sort_asc (a ∷ l) = insert_asc a (sort_asc l)
