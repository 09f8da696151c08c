-- ===== src/Examples/Rollback.antt =====
-- A rollback of one device over a bucket in memory, while the database is down.
use sense_grid.Common.{
  ℕ, ◌≡◌, refl, inl, false, none, some, [], ◌∷◌, text_Eq, codes, lookup-insert, ok,
}
use sense_grid.Shadow.Types.{stored}
use sense_grid.Shadow.Store.{as_json, at_revision, get_desired}
use sense_grid.Rollout.Types.{Rollout, Target}
use sense_grid.Rollout.Services.{Services}
use sense_grid.Rollout.Engine.{Engine, rollback_locked}
use sense_grid.Rollout.Backed.{World, Answers, backed}
use sense_grid.Rollout.Reverting.{Apart, shadowed, rollback-reverts}
use sense_grid.Examples.Window.{whole}
use sense_grid.Examples.Memory.{plan}
use sense_grid.Examples.Restart.{columns, empty_tables}
use sense_grid.Examples.Console.{Entries, bucket, bucket_laws, takes, no_sensors, decode-encode}

abbrev down : Answers Entries
down v = (false, 0, v)

abbrev behind : Services ℕ Entries
behind = record {
  set_desired = λ id d v. (none, v);
  get_desired = λ id v. (none, v);
  get_reported = λ id v. (none, v);
  publish_desired = none;
  list_devices = λ v. (none, v);
  firing_count = none;
  create = λ r v. (false, v);
  get = λ id v. (none, v);
  list = λ v. (none, v);
  list_non_terminal = λ v. (none, v);
  update_state = λ id s v. (false, v);
  advance_stage = λ id i t v. (false, v);
  record_target = λ id t v. (false, v);
  list_targets = λ id v. (none, v);
  publish_event = none;
  now = λ v. (1, v);
  new_id = λ v. (codes "r1", v);
}

bucket-Apart : Apart bucket takes down behind
bucket-Apart = record {
  put_other = λ k j body v other. rw (lookup-insert k j (body, 1) v) (rw other refl);
  send_keeps = λ topic body k v. refl;
  event_keeps = λ send event k v e. absurd (cc e);
  now_keeps = λ k v. refl;
  database_keeps = λ k v. refl;
}

abbrev target : Target ℕ
target = record {
  device_id = codes "a";
  included_at_stage = 0;
  pre_desired = some no_sensors;
  pre_revision = 1;
  pushed_revision = 2;
}

abbrev held : Rollout ℕ
held = record plan { id = codes "r1" }

abbrev holding : Engine ℕ (World Entries)
holding = record {
  active = (codes "r1", held) ∷ [];
  world = record { tables = empty_tables; rest = [] };
  panicked = false;
}

rollback-reverts_example :
    let sv' = backed columns down (shadowed bucket takes behind) in
    let v = (rollback_locked whole sv' 10 holding held (target ∷ []) []).world.rest in
    (n : ℕ) × ((get_desired bucket (codes "a") v).0
      ≡ ok (at_revision (as_json (stored no_sensors)) n, n))
rollback-reverts_example =
    rollback-reverts bucket bucket_laws takes down behind bucket-Apart columns whole 10 holding held
      (target ∷ []) [] target no_sensors (0 ∷ codes "1.0") (refl, tt) (inl refl) refl refl
      (λ body h. decode-encode (codes "1.0") 0 none (some []) none none none body h)
      (λ v. (1, refl, refl))
