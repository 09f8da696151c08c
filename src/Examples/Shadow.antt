-- ===== src/Examples/Shadow.antt =====
-- A bucket in memory, whose JSON has only configurations that set nothing.
use sense_grid.Common.{
  ℕ, zero, ◌≡◌, refl, true, Bool, ◌∷◌, ◌&&◌, text_eq, if◌then◌else◌, pos, false, Option, none, some,
  List, [], text_Eq, ==_refl, Text, codes, lookup, insert, lookup-insert, ok, err, ℤ, arith,
}
use sense_grid.Shadow.Types.{Desired, Reported, stored}
use sense_grid.Shadow.Reconciler.{on_message}
use sense_grid.Shadow.Feedback.{refused-is_rejection}
use sense_grid.Telemetry.Topics.{state_topic}
use sense_grid.Rollout.Signals.{is_rejection}
use sense_grid.Device.Config.{
  known_sensors, apply_partial, apply_rate, apply_sensors, collect_sensors, default_applied_config,
  to_reported, to_rejected_reported, unknown_sensor,
}
use sense_grid.Device.Handler.{Client, config_handler}
use sense_grid.Examples.Window.{whole}
use sense_grid.Examples.Device.{wanted}
use sense_grid.Shadow.Store.{
  Bucket, BucketLaws, at_revision, set_desired, get_desired, get_reported, auditing,
  get_desired-set_desired,
}

abbrev Entries : Type 0
Entries = List (Text × (Text × ℕ))

abbrev blank : Text → Desired ℕ
blank t = record {
  schema_version = t;
  revision = 0;
  sample_rate_hz = none;
  enabled_sensors = none;
  batch_size = none;
  flush_interval_ms = none;
  reporting_mode = none;
}

abbrev encode :
    Text → ℕ → Option ℕ → Option (List Text) → Option ℤ → Option ℤ → Option Text → Option Text
encode t zero none none none none none = some t
encode t n a b c d e = none

encode-blank :
    (t : Text) (n : ℕ) (a : Option ℕ) (b : Option (List Text)) (c d : Option ℤ) (e : Option Text)
    (body : Text)
    → encode t n a b c d e ≡ some body
    → some (blank body)
      ≡ some (record {
        schema_version = t;
        revision = n;
        sample_rate_hz = a;
        enabled_sensors = b;
        batch_size = c;
        flush_interval_ms = d;
        reporting_mode = e;
      })
encode-blank t zero none none none none none body h = ground arith
encode-blank t n a b c d e body h = ground arith

abbrev bucket : Bucket ℕ Entries
bucket = record {
  put = λ k body w. (some 1, insert k (body, 1) w);
  get = λ k w. (some (lookup k w), w);
  audit = λ id direction n body w. (false, w);
  desired = record {
    marshal = λ d.
        encode d.schema_version d.revision d.sample_rate_hz d.enabled_sensors d.batch_size
          d.flush_interval_ms d.reporting_mode;
    unmarshal = λ t. some (blank t);
  };
  reported = record { marshal = λ r. none; unmarshal = λ t. none };
}

bucket_laws : BucketLaws bucket
bucket_laws = record {
  holds = λ k body n w h. rw (lookup-insert k k (body, 1) w) (rw (==_refl k) (ground arith));
  audit_keeps = λ id direction n body k w. refl;
}

get_desired-set_desired_example :
    ((get_desired bucket (codes "d1") (set_desired bucket (codes "d1") (blank []) []).1).0
      ≡ ok (at_revision (stored (blank [])) 1, 1))
    × ((set_desired bucket (codes "d1") (blank []) []).0 ≡ err auditing)
get_desired-set_desired_example =
    get_desired-set_desired bucket bucket_laws (codes "d1") (blank []) [] (codes "1.0") 1
      (λ body h. encode-blank (codes "1.0") 0 none none none none none body h) refl refl

-- Only reports of a refused revision can be written, as the revision and the reason.
abbrev report : ℕ → Text → Reported ℕ
report n why = record {
  schema_version = codes "1.0";
  applied_revision = 0;
  rejected = true;
  rejected_revision = n;
  reject_reason = why;
  sample_rate_hz = some 0;
  enabled_sensors = none;
  batch_size = none;
  flush_interval_ms = none;
  reporting_mode = some (codes "continuous");
  reported_at_ms = 0;
}

abbrev encode_report :
    Text
    → ℕ
    → Bool
    → ℕ
    → Text
    → Option ℕ
    → Option (List Text)
    → Option ℤ
    → Option ℤ
    → Option Text
    → ℕ
    → Option Text
encode_report t zero true n why (some zero) none none none (some m) zero =
    if text_eq t (codes "1.0") && text_eq m (codes "continuous") then some (n ∷ why) else none
encode_report t a b n why r s x y m u = none

abbrev decode_report : Text → Option (Reported ℕ)
decode_report [] = none
decode_report (n ∷ why) = some (report n why)

abbrev reports : Bucket ℕ Entries
reports = record bucket {
  reported = record {
    marshal = λ r.
        encode_report r.schema_version r.applied_revision r.rejected r.rejected_revision
          r.reject_reason r.sample_rate_hz r.enabled_sensors r.batch_size r.flush_interval_ms
          r.reporting_mode r.reported_at_ms;
    unmarshal = decode_report;
  };
}

reports_laws : BucketLaws reports
reports_laws = record { holds = bucket_laws.holds; audit_keeps = bucket_laws.audit_keeps }

-- A device that publishes into a list, at time 0.
abbrev device : Client ℕ (List Text)
device = record {
  now = λ w. (0, w);
  publish = λ topic body w. body ∷ w;
  desired = record { marshal = λ d. none; unmarshal = λ t. some (wanted t) };
  reported = reports.reported;
  describe = λ e. codes "no";
}

refused-is_rejection_example :
    (config_handler whole device known_sensors
        (codes "d1")
        (codes "cpu")
        (default_applied_config (pos 2000))
        []
      ≡ (default_applied_config (pos 2000), (7 ∷ codes "no") ∷ []))
    × ((get_reported reports
          (codes "d1")
          (on_message reports false 9 (state_topic (codes "d1")) (7 ∷ codes "no") ([], [])).0).0
        ≡ ok (some (report 7 (codes "no"))))
    × (is_rejection 7 (some (some (report 7 (codes "no")))) ≡ true)
    × ((report 7 (codes "no")).applied_revision ≡ 0)
unfolding apply_partial apply_rate apply_sensors collect_sensors default_applied_config
    to_rejected_reported to_reported
refused-is_rejection_example =
    refused-is_rejection reports reports_laws whole device known_sensors (codes "d1") (codes "cpu")
      (7 ∷ codes "no") (default_applied_config (pos 2000)) (wanted (codes "cpu"))
      (unknown_sensor (codes "cpu")) [] false 9 1 [] [] refl refl refl refl refl refl refl
