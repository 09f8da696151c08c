-- ===== src/Examples/Tokens.antt =====
-- A fleet whose claims use up their tokens: the server refuses one that it has seen.
use sense_grid.Common.{
  ℕ, ◌≡◌, Bool, true, false, Option, none, some, List, [], ◌∷◌, Text, codes, lookup, insert,
  text_Eq, contains, if◌then◌else◌,
}
use sense_grid.Fleet.Provisioning.{Host}
use sense_grid.Fleet.Tokens.{TokenPool}
use sense_grid.Fleet.Manager.{FleetHost}
use sense_grid.Examples.Fleet.{Files, of_name}

-- The files, and the tokens that were used.
abbrev Tokens : Type 0
Tokens = Files × List Text

abbrev redeem : Text → Tokens → Option (ℕ × Text) × Tokens
redeem token (files, used) =
    if contains token used
    then (some (401, []), (files, used))
    else (some (200, codes "u1"), (files, token ∷ used))

abbrev host : Host Tokens
host = record {
  read_file = λ path w. (lookup path w.0, w);
  make_dir = λ path w. (true, w);
  write_file = λ path body w. (true, (insert path body w.0, w.1));
  new_uuid = λ w. (codes "u1", w);
  load_ca = λ path w. (true, w);
  post = λ url body w. redeem body w;
  requests = record { marshal = λ r. some r.token; unmarshal = λ t. none };
  credentials = record { marshal = λ c. some c.device_id; unmarshal = λ t. some (of_name t) };
}

abbrev is_some : Option Text → Bool
is_some none = false
is_some (some t) = true

abbrev fleet_host : FleetHost Tokens
fleet_host = record {
  host = host;
  state_file = λ dir i. i ∷ dir;
  is_there = λ path w. (is_some (lookup path w.0), w);
  shuffle = λ is w. (is, w);
}

abbrev Fresh : Text → Tokens → Type 0
Fresh t w = contains t w.1 ≡ false

abbrev pool : TokenPool
pool = record { tokens = codes "t1" ∷ codes "t2" ∷ codes "t3" ∷ []; next = 1 }
