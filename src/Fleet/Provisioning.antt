-- ===== src/Fleet/Provisioning.antt =====
-- internal/provisioning/provisioning.go. Files, HTTP, certificates and encoding/json are parameters; an
-- error is none or false.
use sense_grid.Common.{
  ℕ, Bool, true, false, Option, none, some, [], ◌∷◌, ◌++◌, nat_eq, if◌then◌else◌, text_Eq, Text,
  codes, Codec, Result, ok, err,
}

pub record Credentials : Type 0 where
  pub device_id : Text
  pub name : Text
  pub kind : Text
  pub mqtt_username : Text
  pub mqtt_password : Text

pub record ClaimRequest : Type 0 where
  pub token : Text
  pub device_id : Text

pub record Host (W : Type 0) : Type 0 where
  pub read_file : Text → W → Option Text × W
  pub make_dir : Text → W → Bool × W
  pub write_file : Text → Text → W → Bool × W
  pub new_uuid : W → Text × W
  pub load_ca : Text → W → Bool × W
  -- The status and the body of an answer, or none for an error.
  pub post : Text → Text → W → Option (ℕ × Text) × W
  pub requests : Codec ClaimRequest
  pub credentials : Codec Credentials

pub data Error : Type 0 where
  no_token marshaling loading_ca requesting decoding caching : Error
  rejected : ℕ → Error

abbrev pub status_ok : ℕ
status_ok = 200

abbrev pub is_empty : Text → Bool
is_empty [] = true
is_empty (c ∷ cs) = false

module _ {W : Type 0} (h : Host W) where
  unfoldable pub load : Text → W → Option Credentials × W
  load path w =
      let (raw, w1) = h.read_file path w in
      (elim raw [ none ↦ none | some body ↦ h.credentials.unmarshal body ], w1)

  unfoldable pub save : Text → Credentials → W → Bool × W
  save path creds w =
      let (made, w1) = h.make_dir path w in
      if made
      then elim (h.credentials.marshal creds) [
        | none ↦ (false, w1)
        | some body ↦ h.write_file path body w1
      ]
      else (false, w1)

  unfoldable pub with_ca : Text → W → Bool × W
  with_ca [] w = (true, w)
  with_ca (c ∷ cs) w = h.load_ca (c ∷ cs) w

  unfoldable pub answer : Option (ℕ × Text) → Result Error Credentials
  answer none = err requesting
  answer (some (status, body)) =
      if nat_eq status status_ok
      then elim (h.credentials.unmarshal body) [ none ↦ err decoding | some creds ↦ ok creds ]
      else err (rejected status)

  unfoldable pub claim : Text → Text → Text → W → Result Error Credentials × W
  unfolding with_ca answer
  claim control_url token ca_file w =
      let (id, w1) = h.new_uuid w in
      elim (h.requests.marshal (record { token = token; device_id = id })) [
        | none ↦ (err marshaling, w1)
        | some body ↦
            let (loaded, w2) = with_ca ca_file w1 in
            let (resp, w3) = h.post (control_url ++ codes "/v1/devices/claim") body w2 in
            if loaded then (answer resp, w3) else (err loading_ca, w2)
      ]

  unfoldable pub save_claimed : Text → Result Error Credentials → W → Result Error Credentials × W
  unfolding save
  save_claimed path (err e) w = (err e, w)
  save_claimed path (ok creds) w =
      let (saved, w1) = save path creds w in (if saved then ok creds else err caching, w1)

  unfoldable pub load_or_claim : Text → Text → Text → Text → W → Result Error Credentials × W
  unfolding load claim save_claimed
  load_or_claim path control_url token ca_file w =
      let (cached, w1) = load path w in
      elim cached [
        | some creds ↦ (ok creds, w1)
        | none ↦
            let (claimed, w2) = claim control_url token ca_file w1 in
            if is_empty token then (err no_token, w1) else save_claimed path claimed w2
      ]
