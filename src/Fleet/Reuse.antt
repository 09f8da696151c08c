-- ===== src/Fleet/Reuse.antt =====
-- The credentials of a device over two starts of its process.
use sense_grid.Common.{
  ◌≡◌, refl, sym, ap, subst, ◌∙◌, true, none, some, Text, Result, ok, err, inl, inr, arith,
  Option-cases, Bool-cases, if◌then◌else◌,
}
use sense_grid.Fleet.Provisioning.{
  Credentials, Host, Error, no_token, is_empty, load, save, claim, save_claimed, load_or_claim,
}

-- What the cache relies on: JSON reads back what it wrote, and a file what was written to it.
pub record HostLaws {W : Type 0} (h : Host W) : Type 0 where
  pub reads_back :
      (c : Credentials) (body : Text)
      → h.credentials.marshal c ≡ some body
      → h.credentials.unmarshal body ≡ some c
  pub holds :
      (path body : Text) (w : W)
      → (h.write_file path body w).0 ≡ true
      → (h.read_file path (h.write_file path body w).1).0 ≡ some body

module _ {W : Type 0} (h : Host W) (laws : HostLaws h) where
  save-ok :
      (path : Text) (c : Credentials) (w : W)
      → (save h path c w).0 ≡ true
      → (body : Text) × (w1 : W) × (h.credentials.marshal c ≡ some body)
        × (save h path c w ≡ h.write_file path body w1)
        × ((h.write_file path body w1).0 ≡ true)
  unfolding save
  save-ok path c w e =
      let w1 = (h.make_dir path w).1 in
      elim (Bool-cases (h.make_dir path w).0) [
        | inr no_dir ↦ ground arith
        | inl dir ↦ elim (Option-cases (h.credentials.marshal c)) [
          | inl unwritten ↦ ground arith
          | inr (body, written) ↦
              let same : save h path c w ≡ h.write_file path body w1 =
                rw (dir, save) (rw (written, save) refl) in
              (body, w1, written, same, ap (λ x. x.0) (sym same) ∙ e)
        ]
      ]

  load-save :
      (path : Text) (c : Credentials) (w : W)
      → (save h path c w).0 ≡ true
      → (load h path (save h path c w).1).0 ≡ some c
  unfolding load
  load-save path c w e =
      let (body, w1, written, same, put) = save-ok path c w e in
      rw same (rw (laws.holds path body w1 put, load) (laws.reads_back c body written))

  load_or_claim-cached :
      (path control_url token ca_file : Text) (c : Credentials) (w : W)
      → (load h path w).0 ≡ some c
      → load_or_claim h path control_url token ca_file w ≡ (ok c, (load h path w).1)
  unfolding load_or_claim
  load_or_claim-cached path control_url token ca_file c w e = rw (e, load_or_claim) refl

  save_claimed-ok :
      (path : Text) (r : Result Error Credentials) (w : W) (c : Credentials)
      → (save_claimed h path r w).0 ≡ ok c
      → ((save h path c w).0 ≡ true) × ((save_claimed h path r w).1 ≡ (save h path c w).1)
  unfolding save_claimed
  save_claimed-ok path (err x) w c e = ground arith
  save_claimed-ok path (ok d) w c e = elim (Bool-cases (save h path d w).0) [
    | inr lost ↦ ground arith
    | inl saved ↦
        let same : d ≡ c = ground arith in
        (subst (λ x. (save h path x w).0 ≡ true) same saved, ap (λ x. (save h path x w).1) same)
  ]

  load_or_claim-claimed :
      (path control_url token ca_file : Text) (c : Credentials) (w : W)
      → (load h path w).0 ≡ none
      → (load_or_claim h path control_url token ca_file w).0 ≡ ok c
      → (v : W) × ((save h path c v).0 ≡ true)
        × ((load_or_claim h path control_url token ca_file w).1 ≡ (save h path c v).1)
  unfolding load_or_claim
  load_or_claim-claimed path control_url token ca_file c w fresh e =
      let w1 = (load h path w).1 in
      let (got, w2) = claim h control_url token ca_file w1 in
      let missed : load_or_claim h path control_url token ca_file w
          ≡ (if is_empty token then (err no_token, w1) else save_claimed h path got w2) =
        rw (fresh, load_or_claim) refl in
      elim (Bool-cases (is_empty token)) [
        | inl blank ↦ ground (arith, missed)
        | inr given ↦
            let went : load_or_claim h path control_url token ca_file w
                ≡ save_claimed h path got w2 =
              ground (arith, missed) in
            let (saved, there) = save_claimed-ok path got w2 c (ap (λ x. x.0) (sym went) ∙ e) in
            (w2, saved, ap (λ x. x.1) went ∙ there)
      ]

  -- Under the laws above: credentials that were claimed and cached are the ones that the next start
  -- answers, whatever token it is given, and it reads the file and claims nothing.
  pub load_or_claim-again :
      (path control_url token ca_file control_url' token' ca_file' : Text) (c : Credentials) (w : W)
      → (load h path w).0 ≡ none
      → (load_or_claim h path control_url token ca_file w).0 ≡ ok c
      → load_or_claim h path control_url' token' ca_file'
          (load_or_claim h path control_url token ca_file w).1
        ≡ (ok c, (load h path (load_or_claim h path control_url token ca_file w).1).1)
  load_or_claim-again path control_url token ca_file control_url' token' ca_file' c w fresh
        claimed =
      let (v, saved, there) =
        load_or_claim-claimed path control_url token ca_file c w fresh claimed in
      load_or_claim-cached path control_url' token' ca_file' c _
        (ap (λ x. (load h path x).0) there ∙ load-save path c v saved)
