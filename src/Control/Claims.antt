-- ===== src/Control/Claims.antt =====
-- What claims keep true of the broker's clients, and how often a token can be used.
use sense_grid.Common.{
  ℕ, ◌≡◌, refl, ap, subst, ◌∙◌, inl, inr, Bool, true, false, ◌||◌, Option, none, some, List, [],
  ◌∷◌, arith, text_Eq, text_eq_iff, ◌==◌, ==_refl, Text, Codec, Bool-cases, Option-cases,
  Result-cases, if◌then◌else◌, contains, lookup, lookup-delete,
}
use sense_grid.Fleet.Provisioning.{ClaimRequest, is_empty}
use sense_grid.Control.Devices.{Row, has_row, create}
use sense_grid.Control.Tokens.{TokenRecord, token_key, consume_token}
use sense_grid.Control.Claim.{
  Outside, Control, unauthorized, Provisioned, created, refused, lost, provision, register, redeem,
  claim,
}

-- Each client of the broker has a row of its own, and none was created twice.
abbrev pub IsRegistered : List Text → List Row → Type 0
IsRegistered [] rows = Unit
IsRegistered (c ∷ cs) rows =
    (has_row c rows ≡ true) × (contains c cs ≡ false) × IsRegistered cs rows

-- The broker's clients and the table of devices agree.
abbrev pub IsProvisioned : Control → Type 0
IsProvisioned s = IsRegistered s.clients s.devices

IsRegistered-contains :
    (cs : List Text) (rows : List Row) (id : Text)
    → IsRegistered cs rows
    → contains id cs ≡ true
    → has_row id rows ≡ true
IsRegistered-contains [] rows id r h = ground arith
IsRegistered-contains (c ∷ cs) rows id (r, _, rest) h = elim (Bool-cases (c == id)) [
  | inl same ↦ let e : c ≡ id = (text_eq_iff c id).0 same in subst (λ x. has_row x rows ≡ true) e r
  | inr other ↦ IsRegistered-contains cs rows id rest (ground arith)
]

IsRegistered-more :
    (cs : List Text) (rows more : List Row)
    → ((id : Text) → has_row id rows ≡ true → has_row id more ≡ true)
    → IsRegistered cs rows
    → IsRegistered cs more
IsRegistered-more [] rows more h r = tt
IsRegistered-more (c ∷ cs) rows more h (r, d, rest) =
    (h c r, d, IsRegistered-more cs rows more h rest)

create-rows :
    (down : Bool) (now : ℕ) (id name kind : Text) (rows : List Row)
    → ((x : Text) → has_row x rows ≡ true → has_row x (create down now id name kind rows).1 ≡ true)
      × ((create down now id name kind rows).0 ≡ true
          → (has_row id rows ≡ false) × (has_row id (create down now id name kind rows).1 ≡ true))
unfolding create
create-rows down now id name kind rows =
    (λ x h. ground arith, λ h. (ground arith, ground (arith, ==_refl id)))

module _ (json : Codec TokenRecord) (is_uuid : Text → Bool) (host_only : Text → Text) where
  consume_token-gone :
      (down : Bool) (token : Text) (redis : List (Text × Text))
      → down ≡ false
      → lookup (token_key token) (consume_token json down token redis).1 ≡ none
  unfolding consume_token
  consume_token-gone down token redis h = elim (Option-cases (lookup (token_key token) redis)) [
    | inl e ↦ rw (h, consume_token) (rw (e, consume_token) e)
    | inr (body, e) ↦
        rw (h, consume_token)
          (rw (e, consume_token)
            (lookup-delete (token_key token) (token_key token) redis
              ∙ ap (λ b. if b then none else lookup (token_key token) redis)
                  (==_refl (token_key token))))
  ]

  redeem-unknown :
      (o : Outside) (req : ClaimRequest) (s : Control)
      → o.redis_down ≡ false
      → lookup (token_key req.token) s.tokens ≡ none
      → (redeem json is_uuid host_only o req s).0 ≡ unauthorized
  unfolding redeem consume_token
  redeem-unknown o req s h e = rw (h, redeem) (rw (e, redeem) refl)

  provision-IsProvisioned :
      (o : Outside) (req : ClaimRequest) (r : TokenRecord) (password : Text) (s : Control)
      → IsProvisioned s
      → has_row req.device_id s.devices ≡ true
      → contains req.device_id s.clients ≡ false
      → IsProvisioned (provision json is_uuid host_only o req r password s).1
  unfolding provision
  provision-IsProvisioned o req r password s i h d = go o.broker refl
    where
      go :
          (p : Provisioned)
          → o.broker ≡ p
          → IsProvisioned (provision json is_uuid host_only o req r password s).1
      go created e = rw (e, provision) (h, d, i)
      go refused e = rw (e, provision) i
      go lost e = rw (e, provision) (h, d, i)

  register-IsProvisioned :
      (o : Outside) (req : ClaimRequest) (r : TokenRecord) (s : Control)
      → IsProvisioned s
      → IsProvisioned (register json is_uuid host_only o req r s).1
  unfolding register
  register-IsProvisioned o req r s i = elim (Option-cases o.password) [
    | inl e ↦ rw (e, register) i
    | inr (password, e) ↦
        let (done, rows) = create o.database_down o.now req.device_id r.name r.kind s.devices in
        let (kept, fresh) =
          create-rows o.database_down o.now req.device_id r.name r.kind s.devices in
        let s1 = record s { devices = rows } in
        let i1 : IsProvisioned s1 = IsRegistered-more s.clients s.devices rows kept i in
        elim (Bool-cases done) [
          | inr no_row ↦ rw (e, register) (rw no_row i1)
          | inl row ↦
              let (before, after) = fresh row in
              let unknown : contains req.device_id s.clients ≡ false =
                elim (Bool-cases (contains req.device_id s.clients)) [
                  | inl c ↦
                      ground (arith, IsRegistered-contains s.clients s.devices req.device_id i c)
                  | inr c ↦ c
                ] in
              rw (e, register)
                (rw row (provision-IsProvisioned o req r password s1 i1 after unknown))
        ]
  ]

  redeem-IsProvisioned :
      (o : Outside) (req : ClaimRequest) (s : Control)
      → IsProvisioned s
      → IsProvisioned (redeem json is_uuid host_only o req s).1
  unfolding redeem
  redeem-IsProvisioned o req s i =
      let (found, redis) = consume_token json o.redis_down req.token s.tokens in
      let s1 = record s { tokens = redis } in
      elim (Result-cases found) [
        | inr (r, e) ↦ rw (e, redeem) (register-IsProvisioned o req r s1 i)
        | inl (x, e) ↦ rw (e, redeem) i
      ]

  claim-IsProvisioned :
      (o : Outside) (body : Option ClaimRequest) (s : Control)
      → IsProvisioned s
      → IsProvisioned (claim json is_uuid host_only o body s).1
  unfolding claim
  claim-IsProvisioned o body s i = elim (Bool-cases o.no_dynsec) [
    | inl e ↦ rw (e, claim) i
    | inr e ↦ elim (Option-cases body) [
      | inl none_read ↦ rw (e, claim) (rw none_read i)
      | inr (req, read) ↦ elim (Bool-cases (is_empty req.token || is_empty req.device_id)) [
        | inl blank ↦ rw (e, claim) (rw read (rw blank i))
        | inr full ↦ elim (Bool-cases (is_uuid req.device_id)) [
          | inl uuid ↦ rw (e, claim) (rw read (rw full (rw uuid (redeem-IsProvisioned o req s i))))
          | inr bad ↦ rw (e, claim) (rw read (rw full (rw bad i)))
        ]
      ]
    ]
  ]

  abbrev pub run : List (Outside × Option ClaimRequest) → Control → Control
  run [] s = s
  run ((o, body) ∷ calls) s = run calls (claim json is_uuid host_only o body s).1

  -- Over any claims, whatever fails in each of them: every client that the broker was made to know has
  -- a row in the table of devices, and no device id was provisioned twice.
  pub run-IsProvisioned :
      (calls : List (Outside × Option ClaimRequest)) (s : Control)
      → IsProvisioned s
      → IsProvisioned (run calls s)
  run-IsProvisioned [] s i = i
  run-IsProvisioned ((o, body) ∷ calls) s i =
      run-IsProvisioned calls (claim json is_uuid host_only o body s).1
        (claim-IsProvisioned o body s i)

  -- A request that comes as far as Redis, which answers.
  pub record IsRedeemed (o : Outside) (req : ClaimRequest) : Type 0 where
    pub connected : o.no_dynsec ≡ false
    pub full : (is_empty req.token || is_empty req.device_id) ≡ false
    pub uuid : is_uuid req.device_id ≡ true
    pub redis : o.redis_down ≡ false

  claim-redeem :
      (o : Outside) (req : ClaimRequest) (s : Control)
      → IsRedeemed o req
      → claim json is_uuid host_only o (some req) s ≡ redeem json is_uuid host_only o req s
  unfolding claim
  claim-redeem o req s h = rw (h.connected, claim) (rw h.full (rw h.uuid refl))

  register-tokens :
      (o : Outside) (req : ClaimRequest) (r : TokenRecord) (s : Control)
      → (register json is_uuid host_only o req r s).1.tokens ≡ s.tokens
  unfolding register provision
  register-tokens o req r s = ground arith

  redeem-spent :
      (o : Outside) (req : ClaimRequest) (s : Control)
      → o.redis_down ≡ false
      → lookup (token_key req.token) (redeem json is_uuid host_only o req s).1.tokens ≡ none
  unfolding redeem
  redeem-spent o req s h =
      let (found, redis) = consume_token json o.redis_down req.token s.tokens in
      let gone : lookup (token_key req.token) redis ≡ none =
        consume_token-gone o.redis_down req.token s.tokens h in
      elim (Result-cases found) [
        | inl (x, e) ↦ rw (e, redeem) gone
        | inr (r, e) ↦
            rw (e, redeem)
              (ap (lookup (token_key req.token))
                  (register-tokens o req r (record s { tokens = redis }))
                ∙ gone)
      ]

  -- A token serves one claim: after a request that redeemed it, whatever was answered, a second
  -- request with it is refused as unauthorized. So a claim that failed after the token was
  -- consumed cannot be tried again.
  pub claim-once :
      (o o' : Outside) (req req' : ClaimRequest) (s : Control)
      → IsRedeemed o req
      → IsRedeemed o' req'
      → req'.token ≡ req.token
      → (claim json is_uuid host_only o'
          (some req')
          (claim json is_uuid host_only o (some req) s).1).0
        ≡ unauthorized
  claim-once o o' req req' s h h' same =
      let spent : lookup (token_key req'.token) (redeem json is_uuid host_only o req s).1.tokens
          ≡ none =
        ap (λ t. lookup (token_key t) (redeem json is_uuid host_only o req s).1.tokens) same
        ∙ redeem-spent o req s h.redis in
      rw (claim-redeem o req s h) (
        ap (λ x. x.0) (claim-redeem o' req' (redeem json is_uuid host_only o req s).1 h')
        ∙ redeem-unknown o' req' (redeem json is_uuid host_only o req s).1 h'.redis spent)
