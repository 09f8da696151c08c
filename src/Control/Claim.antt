-- ===== src/Control/Claim.antt =====
-- The handler of POST /v1/devices/claim in cmd/control/claim.go, over the tokens of Redis, the table of devices and the
-- clients that the broker knows. What a call meets outside is a record of its own.
use sense_grid.Common.{
  ℕ, Bool, ◌||◌, Option, none, some, List, ◌∷◌, ◌++◌, if◌then◌else◌, Text, codes, Codec, ok, err,
}
use sense_grid.Fleet.Provisioning.{ClaimRequest, is_empty}
use sense_grid.Control.Devices.{Row, create}
use sense_grid.Control.Tokens.{Redis, TokenRecord, Error, token_not_found, consume_token}

-- The broker creates a client and says so, refuses to, or creates it while the answer is lost.
pub data Provisioned : Type 0 where
  created refused lost : Provisioned

pub record Outside : Type 0 where
  -- No connection to the broker's dynamic security plugin.
  pub no_dynsec : Bool
  pub redis_down : Bool
  pub password : Option Text
  pub database_down : Bool
  pub now : ℕ
  pub broker : Provisioned
  pub host : Text

pub record Control : Type 0 where
  pub tokens : Redis
  pub devices : List Row
  pub clients : List Text

pub record ClaimResponse : Type 0 where
  pub device_id : Text
  pub name : Text
  pub kind : Text
  pub mqtt_username : Text
  pub mqtt_password : Text
  pub mqtt_ws_url : Text

pub data Answer : Type 0 where
  bad_request unauthorized internal_error unavailable : Answer
  claimed : ClaimResponse → Answer

abbrev pub refusal : Error → Answer
refusal token_not_found = unauthorized
refusal _ = internal_error

module _ (json : Codec TokenRecord) (is_uuid : Text → Bool) (host_only : Text → Text) where
  -- The client and the answer, once the row is there.
  unfoldable pub provision :
      Outside → ClaimRequest → TokenRecord → Text → Control → Answer × Control
  provision o req r password s =
      let known = record s { clients = req.device_id ∷ s.clients } in
      elim o.broker [
        | refused ↦ (internal_error, s)
        | lost ↦ (internal_error, known)
        | created ↦ (
          claimed (record {
            device_id = req.device_id;
            name = r.name;
            kind = r.kind;
            mqtt_username = req.device_id;
            mqtt_password = password;
            mqtt_ws_url = codes "wss://" ++ host_only o.host ++ codes ":9001";
          }),
          known,
        )
      ]

  unfoldable pub register : Outside → ClaimRequest → TokenRecord → Control → Answer × Control
  unfolding provision create
  register o req r s = elim o.password [
    | none ↦ (internal_error, s)
    | some password ↦
        let (done, rows) = create o.database_down o.now req.device_id r.name r.kind s.devices in
        let s1 = record s { devices = rows } in
        if done then provision o req r password s1 else (internal_error, s1)
  ]

  -- A request with a token and a device id.
  unfoldable pub redeem : Outside → ClaimRequest → Control → Answer × Control
  unfolding register consume_token
  redeem o req s =
      let (found, redis) = consume_token json o.redis_down req.token s.tokens in
      let s1 = record s { tokens = redis } in
      elim found [ ok r ↦ register o req r s1 | err e ↦ (refusal e, s1) ]

  -- The handler; a body that does not decode is none.
  unfoldable pub claim : Outside → Option ClaimRequest → Control → Answer × Control
  unfolding redeem
  claim o body s = if o.no_dynsec then (unavailable, s) else elim body [
    | none ↦ (bad_request, s)
    | some req ↦
        if is_empty req.token || is_empty req.device_id
        then (bad_request, s)
        else if is_uuid req.device_id
        then redeem o req s
        else (bad_request, s)
  ]
