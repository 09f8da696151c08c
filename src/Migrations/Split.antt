-- ===== src/Migrations/Split.antt =====
-- splitStatements of internal/migrations/migrations.go, with what it calls of package strings. White
-- space is that of ASCII.
use sense_grid.Common.{
  ℕ, Bool, true, false, not, ◌&&◌, ◌||◌, List, [], ◌∷◌, ◌++◌, if◌then◌else◌, nat_eq, leb, Text,
  codes, keep,
}
use mathlib.Core.List.{reverse}

unfoldable pub is_space : ℕ → Bool
is_space b = nat_eq b 32 || leb 9 b && leb b 13

unfoldable pub trim_left : Text → Text
trim_left [] = []
trim_left (b ∷ s) = if is_space b then trim_left s else b ∷ s

-- strings.TrimSpace.
unfoldable pub trim_space : Text → Text
unfolding trim_left
trim_space s = reverse (trim_left (reverse (trim_left s)))

-- The first part of strings.Split joined to the byte before it.
unfoldable pub push_front : ℕ → List Text → List Text
push_front b [] = (b ∷ []) ∷ []
push_front b (part ∷ parts) = (b ∷ part) ∷ parts

-- strings.Split at a byte.
unfoldable pub split : ℕ → Text → List Text
unfolding push_front
split sep [] = [] ∷ []
split sep (b ∷ s) = if nat_eq b sep then [] ∷ split sep s else push_front b (split sep s)

-- strings.Join with a byte.
unfoldable pub join : ℕ → List Text → Text
join sep [] = []
join sep (part ∷ []) = part
join sep (part ∷ next ∷ parts) = part ++ sep ∷ join sep (next ∷ parts)

unfoldable pub has_prefix : Text → Text → Bool
has_prefix [] s = true
has_prefix (p ∷ prefix) [] = false
has_prefix (p ∷ prefix) (b ∷ s) = nat_eq b p && has_prefix prefix s

unfoldable pub is_comment : Text → Bool
unfolding has_prefix trim_space
is_comment line = has_prefix (codes "--") (trim_space line)

abbrev pub newline : ℕ
newline = 10

abbrev pub semicolon : ℕ
semicolon = 59

unfoldable pub is_empty : Text → Bool
is_empty [] = true
is_empty (b ∷ s) = false

-- The second loop: each part that is not blank, trimmed.
unfoldable pub trimmed_parts : List Text → List Text
unfolding trim_space is_empty
trimmed_parts [] = []
trimmed_parts (part ∷ parts) =
    let s = trim_space part in if is_empty s then trimmed_parts parts else s ∷ trimmed_parts parts

unfoldable pub split_statements : Text → List Text
unfolding split join is_comment trimmed_parts
split_statements sql =
    let lines = keep (λ line. not (is_comment line)) (split newline sql) in
    trimmed_parts (split semicolon (join newline lines))
