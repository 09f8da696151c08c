-- ===== src/Fleet/Tokens.antt =====
-- tokenPool of cmd/fleet/manager.go. The file is a parameter: it does not exist, cannot be opened, or has
-- lines, of which `scanned` says whether bufio.Scanner came to the end of them.
use sense_grid.Common.{
  ℕ, suc, ◌+◌, ◌-◌, ◌≤◌, ◌≡◌, refl, Bool, true, false, ◌||◌, Option, none, some, List, [], ◌∷◌, leb,
  nat_eq, if◌then◌else◌, Text, length, take, drop, drop_all, get_elem?, arith, zero, ◌<◌, inl, inr,
  Bool-cases, ◌∙◌, sym, ap,
}
use sense_grid.Fleet.Provisioning.{is_empty}

pub record TokenPool : Type 0 where
  pub tokens : List Text
  pub next : ℕ

pub data Opened : Type 0 where
  not_exist failed : Opened
  lines : List Text → Bool → Opened

abbrev pub empty_pool : TokenPool
empty_pool = record { tokens = []; next = 0 }

-- `strings.HasPrefix(line, "#")`.
abbrev pub is_comment : Text → Bool
is_comment [] = false
is_comment (c ∷ cs) = nat_eq c 35

-- The loop over the lines.
unfoldable pub tokens_of : (Text → Text) → List Text → List Text
tokens_of trim_space [] = []
tokens_of trim_space (l ∷ ls) =
    let line = trim_space l in
    let rest = tokens_of trim_space ls in
    if is_empty line || is_comment line then rest else line ∷ rest

-- loadTokenPool, none for an error.
unfoldable pub load_token_pool : (Text → Text) → Text → Opened → Option TokenPool
unfolding tokens_of
load_token_pool trim_space [] file = some empty_pool
load_token_pool trim_space (c ∷ path) not_exist = some empty_pool
load_token_pool trim_space (c ∷ path) failed = none
load_token_pool trim_space (c ∷ path) (lines ls scanned) =
    if scanned then some (record { tokens = tokens_of trim_space ls; next = 0 }) else none

unfoldable pub take_token : TokenPool → Option Text × TokenPool
take_token p =
    if leb (length p.tokens) p.next
    then (none, p)
    else (get_elem? p.tokens p.next, record p { next = p.next + 1 })

unfoldable pub remaining : TokenPool → ℕ
remaining p = length p.tokens - p.next

-- The tokens that `n` calls answer.
abbrev pub taken : ℕ → TokenPool → List Text × TokenPool
taken zero p = ([], p)
taken (suc n) p =
    let (t, p1) = take_token p in
    let (ts, p2) = taken n p1 in (elim t [ none ↦ ts | some token ↦ token ∷ ts ], p2)

pub drop-get_elem? :
    (xs : List Text) (i : ℕ) (l : i < length xs)
    → (x : Text) × (get_elem? xs i ≡ some x) × (drop i xs ≡ x ∷ drop (suc i) xs)
drop-get_elem? [] i l = elim l [ ]
drop-get_elem? (x ∷ xs) zero l = (x, refl, refl)
drop-get_elem? (x ∷ xs) (suc i) l = drop-get_elem? xs i (omega arith)

take_nothing : (k : ℕ) → ◌≡◌ {A = List Text} (take k []) []
take_nothing zero = refl
take_nothing (suc k) = refl

take-over : (k : ℕ) (xs : List Text) (i : ℕ) → length xs ≤ i → take k (drop i xs) ≡ []
take-over k xs i l = rw (drop_all xs i l) (take_nothing k)

abbrev answered : ℕ → Option Text × TokenPool → List Text
answered n (t, p) = elim t [ none ↦ (taken n p).0 | some token ↦ token ∷ (taken n p).0 ]

take_token-over : (p : TokenPool) → leb (length p.tokens) p.next ≡ true → take_token p ≡ (none, p)
unfolding take_token
take_token-over p h = ground arith

pub take_token-more :
    (p : TokenPool)
    → leb (length p.tokens) p.next ≡ false
    → take_token p ≡ (get_elem? p.tokens p.next, record p { next = p.next + 1 })
unfolding take_token
take_token-more p h = ground arith

-- Calls of take, from any number of goroutines, hand out the rest of the file in its order, each token
-- once, and then nothing; what remains is what was not handed out.
pub taken-take :
    (n : ℕ) (p : TokenPool)
    → ((taken n p).0 ≡ take n (drop p.next p.tokens)) × (remaining (taken n p).1 ≡ remaining p - n)
unfolding remaining
taken-take zero p = (refl, omega arith)
taken-take (suc n) p = elim (Bool-cases (leb (length p.tokens) p.next)) [
  | inl over ↦
      let none_left : length p.tokens ≤ p.next = ground arith in
      let (a, b) = taken-take n p in
      let e = take_token-over p over in
      (
        ap (answered n) e
            ∙ a
            ∙ take-over n p.tokens p.next none_left
            ∙ sym (take-over (suc n) p.tokens p.next none_left),
        ap (λ x. remaining (taken n x.1).1) e ∙ b ∙ omega arith,
      )
  | inr more ↦
      let (x, found, split) = drop-get_elem? p.tokens p.next (ground arith) in
      let (a, b) = taken-take n (record p { next = p.next + 1 }) in
      let one_more : p.next + 1 ≡ suc p.next = omega arith in
      let e = take_token-more p more ∙ ap (λ o. (o, record p { next = p.next + 1 })) found in
      (
        ap (answered n) e
            ∙ ap (◌∷◌ x) a
            ∙ ap (λ k. x ∷ take n (drop k p.tokens)) one_more
            ∙ ap (take (suc n)) (sym split),
        ap (λ x. remaining (taken n x.1).1) e ∙ b ∙ omega arith,
      )
]
