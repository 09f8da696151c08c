-- ===== src/Control/Tokens.antt =====
-- internal/devicestore/store.go. Redis is an association list; a key that expires is deleted between two calls. `down`
-- says that Redis does not answer; the bytes of a token are drawn outside.
use sense_grid.Common.{
  Bool, Option, none, some, List, ◌++◌, if◌then◌else◌, text_Eq, Text, codes, lookup, insert, delete,
  Codec, Result, ok, err,
}

pub record TokenRecord : Type 0 where
  pub name : Text
  pub kind : Text

abbrev pub Redis : Type 0
Redis = List (Text × Text)

pub data Error : Type 0 where
  token_not_found no_random marshaling redis_failed decoding : Error

unfoldable pub token_key : Text → Text
token_key token = codes "sensegrid:regtoken:" ++ token

module _ (json : Codec TokenRecord) where
  -- `random` is what randomToken answers.
  unfoldable pub create_token : Bool → Option Text → Text → Text → Redis → Result Error Text × Redis
  unfolding token_key
  create_token down random name kind redis = elim random [
    | none ↦ (err no_random, redis)
    | some token ↦ elim (json.marshal (record { name = name; kind = kind })) [
      | none ↦ (err marshaling, redis)
      | some body ↦
          if down
          then (err redis_failed, redis)
          else (ok token, insert (token_key token) body redis)
    ]
  ]

  -- GETDEL is one command.
  unfoldable pub consume_token : Bool → Text → Redis → Result Error TokenRecord × Redis
  unfolding token_key
  consume_token down token redis =
      if down then (err redis_failed, redis) else elim (lookup (token_key token) redis) [
        | none ↦ (err token_not_found, redis)
        | some body ↦ (
          elim (json.unmarshal body) [ none ↦ err decoding | some r ↦ ok r ],
          delete (token_key token) redis,
        )
      ]
