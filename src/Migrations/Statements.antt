-- ===== src/Migrations/Statements.antt =====
-- splitStatements reads back the statements of a file that is written with a semicolon and a new line
-- behind each, and with comments on lines of their own between them.
use mathlib.Core.List.{append_assoc}
use sense_grid.Common.{
  ◌≡◌, refl, sym, ap, ◌∙◌, true, false, not, List, [], ◌∷◌, ◌++◌, if◌then◌else◌, nat_Eq, Text,
  contains, keep, All, codes,
}
use sense_grid.Migrations.Split.{
  is_space, trim_space, push_front, split, join, has_prefix, is_comment, newline, semicolon,
  is_empty, trimmed_parts, split_statements,
}
use sense_grid.Migrations.Parts.{
  split-cons, split-append, split_whole, join-split, join-append, trim_right-solid,
  trim_space-solid, trim_space-blank, keep-append,
}

pub data Item : Type 0 where
  comment statement : Text → Item

-- The file that is written.
unfoldable pub print : List Item → Text
print [] = []
print (comment text ∷ items) = (45 ∷ 45 ∷ text) ++ newline ∷ print items
print (statement text ∷ items) = (text ++ semicolon ∷ []) ++ newline ∷ print items

unfoldable pub statements : List Item → List Text
statements [] = []
statements (comment text ∷ items) = statements items
statements (statement text ∷ items) = text ∷ statements items

-- A comment is one line. A statement has no semicolon, does not begin or end with white space, and
-- none of its lines is a comment.
unfoldable pub IsItem : Item → Type 0
IsItem (comment text) = contains newline text ≡ false
IsItem (statement text) =
    (contains semicolon text ≡ false)
    × (trim_space text ≡ text)
    × (is_empty text ≡ false)
    × All (λ line. is_comment line ≡ false) (split newline (text ++ semicolon ∷ []))

-- The lines of a printed file that are no comments.
abbrev code_lines : List Text → List Text
code_lines lines = keep (λ line. not (is_comment line)) lines

code_lines_all :
    (lines : List Text) → All (λ line. is_comment line ≡ false) lines → code_lines lines ≡ lines
code_lines_all [] a = refl
code_lines_all (line ∷ lines) (h, a) = rw h (ap (◌∷◌ line) (code_lines_all lines a))

comment-is_comment : (text : Text) → is_comment (45 ∷ 45 ∷ text) ≡ true
unfolding is_comment has_prefix is_space
comment-is_comment text =
    ap (has_prefix (codes "--"))
      (trim_space-solid 45 (45 ∷ text) refl ∙ ap (◌∷◌ 45) (trim_right-solid 45 text refl))

-- What is left of a printed file once the comments are gone.
body : List Text → Text
body [] = []
body (text ∷ texts) = (text ++ semicolon ∷ []) ++ newline ∷ body texts

no_lines : code_lines (split newline []) ≡ [] ∷ []
unfolding split is_comment
no_lines = refl

printed_lines :
    (items : List Item)
    → All IsItem items
    → (line : Text) × (lines : List Text) × (code_lines (split newline (print items))
        ≡ line ∷ lines)
      × (join newline (line ∷ lines) ≡ body (statements items))
unfolding print statements body IsItem join
printed_lines [] a = ([], [], no_lines, refl)
printed_lines (comment text ∷ items) (h, a) =
    let (line, lines, e, j) = printed_lines items a in
    (
      line,
      lines,
      ap code_lines (
            split-append newline (45 ∷ 45 ∷ text) (print items)
            ∙ ap (λ (x : List Text). x ++ split newline (print items))
                (split_whole newline (45 ∷ 45 ∷ text) h))
          ∙ rw (comment-is_comment text) e,
      j,
    )
printed_lines (statement text ∷ items) ((no_semi, trimmed, solid, code), a) =
    let (line, lines, e, j) = printed_lines items a in
    let x : Text = text ++ semicolon ∷ [] in
    let (part, parts, s) = split-cons newline x in
    (
      part,
      parts ++ line ∷ lines,
      ap code_lines (split-append newline x (print items))
          ∙ keep-append (λ line. not (is_comment line)) (split newline x)
              (split newline (print items))
          ∙ ap (λ (y : List Text). y ++ code_lines (split newline (print items)))
              (code_lines_all (split newline x) code ∙ s)
          ∙ ap (λ (y : List Text). (part ∷ parts) ++ y) e,
      join-append newline part line parts lines
          ∙ ap (λ (y : Text). join newline (part ∷ parts) ++ newline ∷ y) j
          ∙ ap (λ (y : Text). y ++ newline ∷ body (statements items))
              (ap (join newline) (sym s) ∙ join-split newline x),
    )

trimmed_parts-solid :
    (part : Text) (parts : List Text)
    → trim_space part ≡ part
    → is_empty part ≡ false
    → trimmed_parts (part ∷ parts) ≡ part ∷ trimmed_parts parts
unfolding trimmed_parts
trimmed_parts-solid part parts same solid =
    ap (λ (s : Text). if is_empty s then trimmed_parts parts else s ∷ trimmed_parts parts) same
    ∙ rw solid refl

trimmed_parts-newline :
    (part : Text) (parts : List Text)
    → trimmed_parts (push_front newline (part ∷ parts)) ≡ trimmed_parts (part ∷ parts)
unfolding trimmed_parts push_front is_space
trimmed_parts-newline part parts =
    ap (λ (s : Text). if is_empty s then trimmed_parts parts else s ∷ trimmed_parts parts)
      (trim_space-blank newline part refl)

split-newline : (s : Text) → split semicolon (newline ∷ s) ≡ push_front newline (split semicolon s)
unfolding split
split-newline s = refl

body-parts :
    (texts : List Text)
    → All (λ text. IsItem (statement text)) texts
    → trimmed_parts (split semicolon (body texts)) ≡ texts
unfolding body IsItem
body-parts [] a = unfold split trimmed_parts in refl
body-parts (text ∷ texts) ((no_semi, trimmed, solid, code), a) =
    let (part, parts, e) = split-cons semicolon (body texts) in
    ap (λ (x : Text). trimmed_parts (split semicolon x))
      (append_assoc text (semicolon ∷ []) (newline ∷ body texts))
    ∙ ap trimmed_parts (
        split-append semicolon text (newline ∷ body texts)
        ∙ ap (λ (x : List Text). x ++ split semicolon (newline ∷ body texts))
            (split_whole semicolon text no_semi)
        ∙ ap (◌∷◌ text) (split-newline (body texts) ∙ ap (push_front newline) e))
    ∙ trimmed_parts-solid text (push_front newline (part ∷ parts)) trimmed solid
    ∙ ap (◌∷◌ text)
        (trimmed_parts-newline part parts ∙ ap trimmed_parts (sym e) ∙ body-parts texts a)

statements-IsItem :
    (items : List Item)
    → All IsItem items
    → All (λ text. IsItem (statement text)) (statements items)
unfolding statements
statements-IsItem [] a = tt
statements-IsItem (comment text ∷ items) (h, a) = statements-IsItem items a
statements-IsItem (statement text ∷ items) (h, a) = (h, statements-IsItem items a)

-- splitStatements finds in a printed file its statements, as they are and in their order: where
-- each comment is one line, and each statement has no semicolon, does not begin or end with white
-- space, and has no line that is a comment.
pub split_statements-print :
    (items : List Item) → All IsItem items → split_statements (print items) ≡ statements items
unfolding split_statements
split_statements-print items a =
    let (line, lines, e, j) = printed_lines items a in
    ap (λ (x : List Text). trimmed_parts (split semicolon (join newline x))) e
    ∙ ap (λ (x : Text). trimmed_parts (split semicolon x)) j
    ∙ body-parts (statements items) (statements-IsItem items a)
