-- ===== src/Control/Devices.antt =====
-- internal/devices/devices.go over the table of deploy/migrations/0001_devices.sql, a list of rows. `down` says
-- that the database does not answer a call, which then changes nothing; `now` is its clock.
use sense_grid.Common.{
  ℕ, Bool, true, false, Option, none, some, List, [], ◌∷◌, if◌then◌else◌, ◌==◌, text_Eq, Text,
  codes, Result, ok, err, sort_desc,
}

pub record Row : Type 0 where
  pub id : Text
  pub name : Text
  pub kind : Text
  pub registered_at : ℕ
  pub last_seen : Option ℕ
  pub status : Text
  pub metadata : Text

pub record Device (M : Type 0) : Type 0 where
  pub id : Text
  pub name : Text
  pub kind : Text
  pub registered_at : ℕ
  pub last_seen : Option ℕ
  pub status : Text
  pub metadata : Option M

pub data Error : Type 0 where
  query_failed bad_metadata : Error

abbrev pub has_row : Text → List Row → Bool
has_row id [] = false
has_row id (r ∷ rs) = if r.id == id then true else has_row id rs

unfoldable pub create : Bool → ℕ → Text → Text → Text → List Row → Bool × List Row
create down now id name kind rows =
    if down then (false, rows) else if has_row id rows then (false, rows) else (
      true,
      record {
        id = id;
        name = name;
        kind = kind;
        registered_at = now;
        last_seen = none;
        status = codes "claimed";
        metadata = codes "{}";
      }
          ∷ rows,
    )

-- `WHERE id = $1`.
abbrev pub find_row : Text → List Row → Option Row
find_row id [] = none
find_row id (r ∷ rs) = if r.id == id then some r else find_row id rs

module _ {M : Type 0} (unmarshal : Text → Option M) where
  abbrev pub device_of : Row → Option M → Device M
  device_of r metadata = record {
    id = r.id;
    name = r.name;
    kind = r.kind;
    registered_at = r.registered_at;
    last_seen = r.last_seen;
    status = r.status;
    metadata = metadata;
  }

  abbrev pub decoded : Text → Result Error (Option M)
  decoded [] = ok none
  decoded (c ∷ cs) = elim (unmarshal (c ∷ cs)) [ none ↦ err bad_metadata | some m ↦ ok (some m) ]

  unfoldable pub scan_device : Row → Result Error (Device M)
  scan_device r = elim (decoded r.metadata) [ err e ↦ err e | ok m ↦ ok (device_of r m) ]

  unfoldable pub get : Bool → Text → List Row → Result Error (Option (Device M))
  unfolding scan_device
  get down id rows = if down then err query_failed else elim (find_row id rows) [
    | none ↦ ok none
    | some r ↦ elim (scan_device r) [ err e ↦ err e | ok d ↦ ok (some d) ]
  ]

  unfoldable pub scan_all : List Row → Result Error (List (Device M))
  unfolding scan_device
  scan_all [] = ok []
  scan_all (r ∷ rs) =
      let rest = scan_all rs in
      elim (scan_device r) [
        | err e ↦ err e
        | ok d ↦ elim rest [ err e ↦ err e | ok ds ↦ ok (d ∷ ds) ]
      ]

  unfoldable pub list : Bool → List Row → Result Error (List (Device M))
  unfolding scan_all
  list down rows =
      if down then err query_failed else scan_all (sort_desc (λ (r : Row). r.registered_at) rows)

-- The rows after the statement: an id without a row changes nothing and is no error.
abbrev pub set_last_seen : Text → ℕ → List Row → List Row
set_last_seen id at [] = []
set_last_seen id at (r ∷ rs) =
    (if r.id == id then record r { last_seen = some at } else r) ∷ set_last_seen id at rs

unfoldable pub update_last_seen : Bool → Text → ℕ → List Row → Bool × List Row
update_last_seen down id at rows = if down then (false, rows) else (true, set_last_seen id at rows)
