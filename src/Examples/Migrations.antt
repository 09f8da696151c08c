-- ===== src/Examples/Migrations.antt =====
-- Migrations over a database that answers everything, and their files.
use mathlib.Core.List.{map, reverse}
use sense_grid.Common.{
  ℕ, suc, ◌≡◌, refl, none, some, List, [], ◌∷◌, ◌++◌, codes, Text, All, IsDistinct, text_Eq,
  Bool-cases, inl, inr,
}
use sense_grid.Migrations.Split.{
  split_statements, trim_space, trim_left, is_space, is_empty, is_comment, has_prefix, split,
}
use sense_grid.Migrations.Run.{
  Database, Files, Schema, base, sort_strings, insert_text, text_leb, base_of, run, apply_text,
  run_in_tx, exec_all, migrate_all, turn, migrate, record_version,
}
use sense_grid.Migrations.Recorded.{NoRace, pending, run-versions}
use sense_grid.Migrations.Statements.{
  Item, comment, statement, print, statements, IsItem, split_statements-print,
}

-- The world counts the statements.
abbrev counting : Database ℕ
counting = record {
  create_table = λ w. (none, suc w);
  select_versions = λ w. (none, suc w);
  begin = λ w. (none, suc w);
  commit = λ w. (none, suc w);
  exec = λ text w. (none, suc w);
  insert_version = λ w. (none, suc w);
}

abbrev two_files : Files
two_files = record {
  glob = some (codes "m/2" ∷ codes "m/1" ∷ []);
  read = λ path. some (codes "a;b");
}

exec_all_fine : (texts : List Text) (w : ℕ) → (exec_all counting texts w).0 ≡ none
unfolding exec_all
exec_all_fine [] w = refl
exec_all_fine (text ∷ texts) w = exec_all_fine texts (suc w)

run_in_tx_fine : (texts : List Text) (w : ℕ) → (run_in_tx counting texts w).0 ≡ none
unfolding run_in_tx
run_in_tx_fine texts w = rw (exec_all_fine texts (suc w), run_in_tx) refl

apply_text_fine : (raw : Text) (w : ℕ) → (apply_text counting raw w).0 ≡ none
unfolding apply_text
apply_text_fine raw w =
    elim (Bool-cases (has_prefix (codes "-- no-transaction") (trim_space raw))) [
      | inl loose ↦ rw loose (exec_all_fine (split_statements raw) w)
      | inr together ↦ rw together (run_in_tx_fine (split_statements raw) w)
    ]

counting-NoRace : NoRace counting two_files
counting-NoRace = record {
  applies = λ raw w f failed. absurd (cc (apply_text_fine raw w, failed));
  inserts = λ w f failed. absurd (cc failed);
}

abbrev only_first : Schema ℕ
only_first = record { versions = codes "1" ∷ []; world = 0 }

sorted : sort_strings (codes "m/2" ∷ codes "m/1" ∷ []) ≡ codes "m/1" ∷ codes "m/2" ∷ []
unfolding sort_strings insert_text text_leb
sorted = refl

distinct : IsDistinct (map base (sort_strings (codes "m/2" ∷ codes "m/1" ∷ [])))
unfolding base base_of
distinct = rw sorted (refl, (refl, tt))

runs : (run counting two_files only_first).0 ≡ none
unfolding run migrate_all turn migrate apply_text run_in_tx exec_all record_version split_statements
    is_space sort_strings insert_text text_leb base base_of
runs = refl

run-versions_example :
    (run counting two_files only_first).1.versions
    ≡ reverse (map base (pending (codes "1" ∷ []) (sort_strings (codes "m/2" ∷ codes "m/1" ∷ []))))
      ++ codes "1" ∷ []
run-versions_example =
    run-versions counting two_files counting-NoRace only_first (codes "m/2" ∷ codes "m/1" ∷ []) refl
      distinct runs

abbrev items : List Item
items = comment (codes " two") ∷ statement (codes "a b") ∷ statement (codes "c") ∷ []

items-IsItem : All IsItem items
unfolding IsItem trim_space trim_left is_space is_empty is_comment has_prefix split
items-IsItem = (refl, ((refl, refl, refl, (refl, tt)), ((refl, refl, refl, (refl, tt)), tt)))

split_statements-print_example : split_statements (print items) ≡ statements items
split_statements-print_example = split_statements-print items items-IsItem
