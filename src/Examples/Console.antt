-- ===== src/Examples/Console.antt =====
-- The console: frames that come through its socket, a rollout and a configuration that it asks for.
use mathlib.Core.List.{Sublist}
use mathlib.Core.Option
use sense_grid.Common.{
  pos, ℕ, ◌≤◌, ◌≡◌, refl, true, false, Bool, Option, none, some, List, [], ◌∷◌, ◌++◌, length,
  text_Eq, ==_refl, Text, codes, lookup, insert, lookup-insert, ok, ℤ, arith, text_Eq, ap, sym,
}
use sense_grid.Telemetry.Topics.{config_topic}
use sense_grid.Shadow.Types.{Desired, stored}
use sense_grid.Shadow.Store.{
  Bucket, BucketLaws, at_revision, set_desired, get_desired, as_json, non_empty,
}
use sense_grid.Shadow.Reconciler.{publish_desired}
use sense_grid.Rollout.Engine.{new_engine}
use sense_grid.Rollout.Commands.{create}
use sense_grid.Rollout.Validate.{validate, check_stages}
use sense_grid.Control.Http.{answered}
use sense_grid.Control.ShadowApi.{put_desired}
use sense_grid.Control.Configured.{put_desired-answered}
use sense_grid.Control.RolloutApi.{
  RolloutRequest, RolloutView, post_rollout, to_rollout_view, requested, seconds_to_duration,
}
use sense_grid.Control.Planned.{fits, asked, post_rollout-answered}
use sense_grid.Control.Relay.{WsFrame, ws_send_buffer, new_conn, Event, message, writes, run}
use sense_grid.Control.Feed.{frames, run-Sublist}
use sense_grid.Examples.Window.{whole}
use sense_grid.Examples.Memory.{memory, d1, d2, empty_memory, plan}

abbrev frame : Text → WsFrame
frame payload = record {
  kind = codes "metric";
  subject = codes "metrics.a";
  payload = payload;
  ts = 1;
}

abbrev as_is : WsFrame → Option Text
as_is f = some f.payload

-- Two messages come, the socket refuses the first frame, and a third message comes.
abbrev refused_frame : List Event
refused_frame =
    message (frame (codes "x"))
    ∷ message (frame (codes "y"))
    ∷ writes false
    ∷ message (frame (codes "z"))
    ∷ []

run-Sublist_example :
    Sublist
      ((run as_is refused_frame new_conn).written ++ (run as_is refused_frame new_conn).queue)
      (frames as_is refused_frame)
    × (length (run as_is refused_frame new_conn).queue ≤ ws_send_buffer)
run-Sublist_example = run-Sublist as_is refused_frame

-- JSON that has only configurations that set nothing but an empty list of sensors, which it leaves out.
abbrev blank : Text → ℕ → Desired ℕ
blank t n = record {
  schema_version = t;
  revision = n;
  sample_rate_hz = none;
  enabled_sensors = none;
  batch_size = none;
  flush_interval_ms = none;
  reporting_mode = none;
}

abbrev encode :
    Text → ℕ → Option ℕ → Option (List Text) → Option ℤ → Option ℤ → Option Text → Option Text
encode t n none none none none none = some (n ∷ t)
encode t n none (some []) none none none = some (n ∷ t)
encode t n a b c d e = none

abbrev decode : Text → Option (Desired ℕ)
decode [] = none
decode (n ∷ t) = some (blank t n)

pub decode-encode :
    (t : Text) (n : ℕ) (a : Option ℕ) (b : Option (List Text)) (c d : Option ℤ) (e : Option Text)
    (body : Text)
    → encode t n a b c d e ≡ some body
    → decode body
      ≡ some (record {
        schema_version = t;
        revision = n;
        sample_rate_hz = a;
        enabled_sensors = non_empty b;
        batch_size = c;
        flush_interval_ms = d;
        reporting_mode = e;
      })
decode-encode t n none none none none none body h =
    let same : n ∷ t ≡ body = cc h in ap decode (sym same)
decode-encode t n none (some []) none none none body h =
    let same : n ∷ t ≡ body = cc h in ap decode (sym same)
decode-encode t n a b c d e body h = ground arith

abbrev pub Entries : Type 0
Entries = List (Text × (Text × ℕ))

abbrev pub bucket : Bucket ℕ Entries
bucket = record {
  put = λ k body w. (some 1, insert k (body, 1) w);
  get = λ k w. (some (lookup k w), w);
  audit = λ id direction n body w. (true, w);
  desired = record {
    marshal = λ d.
        encode d.schema_version d.revision d.sample_rate_hz d.enabled_sensors d.batch_size
          d.flush_interval_ms d.reporting_mode;
    unmarshal = decode;
  };
  reported = record { marshal = λ r. none; unmarshal = λ t. none };
}

pub bucket_laws : BucketLaws bucket
bucket_laws = record {
  holds = λ k body n w h. rw (lookup-insert k k (body, 1) w) (rw (==_refl k) (ground arith));
  audit_keeps = λ id direction n body k w. refl;
}

abbrev pub takes : Text → Text → Entries → Bool × Entries
takes topic body w = (true, w)

abbrev pub no_sensors : Desired ℕ
no_sensors = record (blank [] 0) { enabled_sensors = some [] }

abbrev taken_config : Desired ℕ
taken_config = at_revision (stored no_sensors) 1

puts : (put_desired bucket (some takes) (codes "d1") (some no_sensors) []).0 ≡ answered taken_config
unfolding put_desired set_desired publish_desired
puts = refl

put_desired-answered_example :
    let w1 = (set_desired bucket (codes "d1") no_sensors []).1 in
    ((body : Text) × (bucket.desired.marshal taken_config ≡ some body)
      × ((takes (config_topic (codes "d1")) body w1).0 ≡ true))
    × ((get_desired bucket
          (codes "d1")
          (put_desired bucket (some takes) (codes "d1") (some no_sensors) []).1).0
        ≡ ok (as_json taken_config, 1))
    × (taken_config ≡ at_revision (stored no_sensors) 1)
put_desired-answered_example =
    put_desired-answered bucket bucket_laws takes (λ topic body k w. refl) (codes "d1") no_sensors
      taken_config [] (λ body h. decode-encode (codes "1.0") 0 none (some []) none none none body h)
      puts

abbrev request : RolloutRequest ℕ
request = record {
  name = plan.name;
  cohort = plan.cohort;
  desired_config = plan.desired_config;
  stages =
      record { percent = 50; bake_seconds = pos 60 }
      ∷ record { percent = 100; bake_seconds = pos 0 }
      ∷ [];
  health_criteria = plan.health_criteria;
}

abbrev view : RolloutView ℕ
view = asked request (codes "r1") 1

posted :
    (post_rollout whole
      (memory (d1 ∷ d2 ∷ []) true)
      10
      (λ why. codes "error")
      (some request)
      (new_engine whole (memory (d1 ∷ d2 ∷ []) true) 10 empty_memory)).0
    ≡ answered view
unfolding post_rollout create validate check_stages seconds_to_duration new_engine
posted = refl

post_rollout-answered_example :
    let sv = memory (d1 ∷ d2 ∷ []) true in
    let e' =
      (post_rollout whole sv 10
        (λ why. codes "error")
        (some request)
        (new_engine whole sv 10 empty_memory)).1 in
    (validate (requested request) ≡ none)
    × (view ≡ asked request (codes "r1") 1)
    × (Option.map to_rollout_view (lookup (codes "r1") e'.active) ≡ some view)
unfolding fits
post_rollout-answered_example =
    post_rollout-answered whole (memory (d1 ∷ d2 ∷ []) true) 10 (λ why. codes "error") request
      (new_engine whole (memory (d1 ∷ d2 ∷ []) true) 10 empty_memory) view (refl, (refl, tt)) posted
