-- ===== src/Store/Reject.antt =====
-- store/reject.go: what a log line shows of a rejected ad. `is_private` stands for
-- message.ClassAdAttributeIsPrivateAny of the cedar library.
pub mod Secrecy
pub mod Tests
use golang_collector.Base.{
  ℕ, Bool, true, Option, none, some, List, [], ◌∷◌, ◌++◌, ◌==◌, map, length, take, drop, leb,
  if◌then◌else◌,
}
use golang_collector.Base.Text.{
  Text, codes, newline, cut, has_prefix, join_lines, lines, split_lines, trim_left, trim_space,
}
use mathlib.Core.List.{reverse}

trim_quotes_left : Text → Text
trim_quotes_left [] = []
trim_quotes_left (c ∷ s) = let rest = trim_quotes_left s in if c == b'"' then rest else c ∷ s

-- strings.Trim(s, `"`)
trim_quotes : Text → Text
unfolding trim_quotes_left
trim_quotes s = reverse (trim_quotes_left (reverse (trim_quotes_left s)))

-- What stands behind the first `=`, where nothing but spaces stands before it.
after_equals : Text → Option Text
after_equals [] = none
after_equals (c ∷ s) = if c == b'=' then some s else none

-- The Name on one line, or `none` where the loop goes on.
name_of_line : Text → Option Text
unfolding trim_quotes after_equals
name_of_line line =
    let s = trim_space line in
    if has_prefix s (codes "Name")
    then elim (after_equals (trim_space (drop 4 s))) [
      | none ↦ none
      | some rest ↦ some (trim_quotes (trim_space rest))
    ]
    else none

name_of_lines : List Text → Text
name_of_lines [] = []
name_of_lines (line ∷ rest) = elim (name_of_line line) [
  | none ↦ name_of_lines rest
  | some name ↦ name
]

unfoldable pub ad_name : Text → Text
unfolding name_of_lines name_of_line
ad_name text = name_of_lines (lines text)

abbrev pub max_excerpt : ℕ
max_excerpt = 8192

abbrev redacted : Text
redacted = codes " \"<redacted>\""

abbrev pub truncated : Text
truncated = newline ∷ codes "...[truncated]"

-- The text, or its first `max` bytes and a mark.
cap : ℕ → Text → Text → Text
cap max mark text = if leb (length text) max then text else take max text ++ mark

module _ (is_private : Text → Bool) where
  unfoldable pub sanitize_ad_line : Text → Text
  sanitize_ad_line line = elim (cut b'=' line) [
    | none ↦ line
    | some (before, after) ↦
        if is_private (trim_space before) then before ++ b'=' ∷ redacted else line
  ]

  unfoldable pub sanitize_ad_text : Text → Text
  unfolding sanitize_ad_line
  sanitize_ad_text text = join_lines (map sanitize_ad_line (split_lines text))

  unfoldable pub ad_excerpt : Text → Text
  unfolding sanitize_ad_text cap
  ad_excerpt text = cap max_excerpt truncated (sanitize_ad_text text)
