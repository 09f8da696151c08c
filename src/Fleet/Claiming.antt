-- ===== src/Fleet/Claiming.antt =====
-- The tokens of a fleet, and what a slot that wants credentials makes of them.
use sense_grid.Common.{
  ◌+◌, drop, length-drop, IsDistinct, ◌==◌, text_Eq, text_eq_iff, ℕ, suc, ◌≤◌, ◌<◌, ◌≡◌, refl, sym,
  ap, subst, ◌∙◌, inl, inr, true, false, some, List, [], ◌∷◌, arith, nat_Eq, Text, length, contains,
  All, ok, Bool-cases, ==_refl,
}
use sense_grid.Fleet.Provisioning.{Credentials, is_empty, load, load_or_claim}
use sense_grid.Fleet.Tokens.{TokenPool, take_token, take_token-more, drop-get_elem?}
use sense_grid.Fleet.Manager.{FleetHost, token_for}

abbrev pub IsToken : Text → Type 0
IsToken t = is_empty t ≡ false

-- The tokens that the pool has not handed out.
abbrev pub left : TokenPool → List Text
left p = drop p.next p.tokens

-- Files that are there hold credentials; a claim with a token that no claim has used succeeds; and
-- neither a look at a file nor a claim uses any other token.
pub record Claimable {W : Type 0} (h : FleetHost W) (Fresh : Text → W → Type 0) : Type 0 where
  pub cached :
      (path : Text) (w : W)
      → (h.is_there path w).0 ≡ true
      → (c : Credentials) × ((load h.host path (h.is_there path w).1).0 ≡ some c)
  pub claimed :
      (path control_url token ca_file : Text) (w : W)
      → IsToken token
      → Fresh token w
      → (c : Credentials) × ((load_or_claim h.host path control_url token ca_file w).0 ≡ ok c)
  pub look_keeps : (path t : Text) (w : W) → Fresh t w → Fresh t (h.is_there path w).1
  pub claim_keeps :
      (path control_url token ca_file t : Text) (w : W)
      → (token == t) ≡ false
      → Fresh t w
      → Fresh t (load_or_claim h.host path control_url token ca_file w).1

-- There are at least `n` of these tokens, all different and none of them used.
pub record Stock {W : Type 0} (Fresh : Text → W → Type 0) (n : ℕ) (ts : List Text) (w : W)
    : Type 0 where
  pub enough : n ≤ length ts
  pub tokens : All IsToken ts
  pub fresh : All (λ t. Fresh t w) ts
  pub distinct : IsDistinct ts

abbrev pub IsStocked : {W : Type 0} → (Text → W → Type 0) → ℕ → TokenPool → W → Type 0
IsStocked Fresh n p w = Stock Fresh n (left p) w

take_token-left :
    (p : TokenPool)
    → 0 < length (left p)
    → (t : Text) × (ts : List Text) × (left p ≡ t ∷ ts)
      × ((take_token p).0 ≡ some t)
      × (left (take_token p).1 ≡ ts)
take_token-left p l =
    let (t, found, split) =
      drop-get_elem? p.tokens p.next (omega (arith, l, length-drop p.next p.tokens)) in
    let e = take_token-more p (ground (arith, length-drop p.next p.tokens)) in
    let one_more : p.next + 1 ≡ suc p.next = omega arith in
    (
      t,
      drop (suc p.next) p.tokens,
      split,
      ap (λ x. x.0) e ∙ found,
      ap (λ x. left x.1) e ∙ ap (λ k. drop k p.tokens) one_more,
    )

pub Stock-less :
    {W : Type 0} (Fresh : Text → W → Type 0) (n : ℕ) (ts : List Text) (w : W)
    → Stock Fresh (suc n) ts w
    → Stock Fresh n ts w
Stock-less Fresh n ts w s = record {
  enough = omega (arith, s.enough);
  tokens = s.tokens;
  fresh = s.fresh;
  distinct = s.distinct;
}

All-fresh :
    {W : Type 0} (Fresh : Text → W → Type 0) (ts : List Text) (w v : W)
    → ((t : Text) → contains t ts ≡ true → Fresh t w → Fresh t v)
    → All (λ t. Fresh t w) ts
    → All (λ t. Fresh t v) ts
All-fresh Fresh [] w v h a = tt
All-fresh Fresh (t ∷ ts) w v h (f, a) =
    (h t (ground (arith, ==_refl t)) f, All-fresh Fresh ts w v (λ x e. h x (ground arith)) a)

token-differs :
    (ts : List Text) (t : Text) → All IsToken ts → contains t ts ≡ true → ([] == t) ≡ false
token-differs [] t a e = ground arith
token-differs (x ∷ ts) t (h, a) e = elim (Bool-cases (x == t)) [
  | inl same ↦
      let is_t : x ≡ t = (text_eq_iff x t).0 same in not_empty t (ap is_empty (sym is_t) ∙ h)
  | inr other ↦ token-differs ts t a (ground arith)
]
  where
    not_empty : (t : Text) → is_empty t ≡ false → ([] == t) ≡ false
    not_empty [] h = absurd (cc h)
    not_empty (c ∷ cs) h = refl

first-differs :
    (ts : List Text) (t x : Text) → contains t ts ≡ false → contains x ts ≡ true → (t == x) ≡ false
first-differs ts t x new e = elim (Bool-cases (t == x)) [
  | inr other ↦ other
  | inl same ↦
      let is_x : t ≡ x = (text_eq_iff t x).0 same in
      absurd (cc (new, e, ap (λ (y : Text). contains y ts) is_x))
]

load_or_claim-cached :
    {W : Type 0} (h : FleetHost W) (path control_url token ca_file : Text) (c : Credentials) (w : W)
    → (load h.host path w).0 ≡ some c
    → (load_or_claim h.host path control_url token ca_file w).0 ≡ ok c
unfolding load_or_claim
load_or_claim-cached h path control_url token ca_file c w e = rw (e, load_or_claim) refl

-- What a slot's look at its file and its claim make of the pool and the world.
module _ {W : Type 0} (h : FleetHost W) (Fresh : Text → W → Type 0) (good : Claimable h Fresh) where
  -- The token that a slot gets is enough for its credentials, and the others stay fresh.
  pub token_for-Claimable :
      (n : ℕ) (path control_url ca_file : Text) (p : TokenPool) (w : W)
      → IsStocked Fresh (suc n) p w
      → let (token, p', w1) = token_for h path p w in
        let (claimed, w2) = load_or_claim h.host path control_url token ca_file w1 in
        IsStocked Fresh n p' w2 × ((c : Credentials) × (claimed ≡ ok c))
  unfolding token_for
  token_for-Claimable n path control_url ca_file p w s =
      let (there, w1) = h.is_there path w in
      let looked = λ (ts : List Text) (a : All (λ t. Fresh t w) ts).
        All-fresh Fresh ts w w1 (λ t e f. good.look_keeps path t w f) a in
      let (t, ts, split, got, rest) = take_token-left p (omega (arith, s.enough)) in
      elim (Bool-cases there) [
        | inl e ↦
            let (c, cached) = good.cached path w e in
            rw (e, token_for)
              (
                record {
                  enough = omega (arith, s.enough);
                  tokens = s.tokens;
                  fresh =
                      All-fresh Fresh (left p) w1 _
                        (λ x m f.
                          good.claim_keeps path control_url [] ca_file x w1
                            (token-differs (left p) x s.tokens m) f)
                        (looked (left p) s.fresh);
                  distinct = s.distinct;
                },
                (c, load_or_claim-cached h path control_url [] ca_file c w1 cached),
              )
        | inr e ↦
            let tokens : All IsToken (t ∷ ts) = subst (All IsToken) split s.tokens in
            let fresh : All (λ x. Fresh x w) (t ∷ ts) =
              subst (All (λ x. Fresh x w)) split s.fresh in
            let distinct : IsDistinct (t ∷ ts) =
              subst (λ (x : List Text). IsDistinct x) split s.distinct in
            let size : suc (length ts) ≡ length (left p) =
              ap (λ (x : List Text). length x) (sym split) in
            rw (e, token_for)
              (rw got (
                subst (λ x. Stock Fresh n x (load_or_claim h.host path control_url t ca_file w1).1)
                    (sym rest)
                    (record {
                      enough = omega (arith, s.enough, size);
                      tokens = tokens.1;
                      fresh =
                          All-fresh Fresh ts w1 _
                            (λ x m f.
                              good.claim_keeps path control_url t ca_file x w1
                                (first-differs ts t x distinct.0 m) f)
                            (looked ts fresh.1);
                      distinct = distinct.1;
                    }),
                good.claimed path control_url t ca_file w1 tokens.0
                    (good.look_keeps path t w fresh.0),
              ))
      ]
