-- ===== src/Store/SeqVersion.antt =====
-- store/seqversion.go: the order of updates, and the resolution of a batch's conflicts by it.
pub mod Order
pub mod Conflicts
pub mod Tests
use golang_collector.Base.{
  Bool, true, false, not, ◌&&◌, Option, none, some, List, [], ◌∷◌, ◌++◌, any, is_some,
  if◌then◌else◌,
}
use golang_collector.Base.Int.{ℤ, pos, ltb_int, eq_int, parse_int}
use golang_collector.Base.Text.{Text, codes, cut, lines, text_eq, to_lower, trim_space}

pub record AdVersion : Type 0 where
  pub start_time : ℤ
  pub seq_no : ℤ
  pub valid : Bool

unfoldable pub newer_than : AdVersion → AdVersion → Bool
newer_than a b =
    if not a.valid
    then false
    else if not b.valid
    then true
    else if not (eq_int a.start_time b.start_time)
    then ltb_int b.start_time a.start_time
    else ltb_int b.seq_no a.seq_no

-- The loop of `intAttrFromText`; `none` is the second result `false`.
int_attr_from_lines : Text → List Text → Option ℤ
int_attr_from_lines lname [] = none
int_attr_from_lines lname (line ∷ rest) = elim (cut b'=' line) [
  | none ↦ int_attr_from_lines lname rest
  | some (before, after) ↦
      if text_eq (to_lower (trim_space before)) lname
      then parse_int (trim_space after)
      else int_attr_from_lines lname rest
]

unfoldable pub int_attr_from_text : Text → Text → Option ℤ
unfolding int_attr_from_lines
int_attr_from_text text name = int_attr_from_lines (to_lower name) (lines text)

abbrev value_or_zero : Option ℤ → ℤ
value_or_zero none = pos 0
value_or_zero (some v) = v

unfoldable pub version_from_text : Text → AdVersion
unfolding int_attr_from_text cut lines to_lower trim_space parse_int
version_from_text text =
    let st = int_attr_from_text text (codes "DaemonStartTime") in
    let sq = int_attr_from_text text (codes "UpdateSequenceNumber") in
    record {
      start_time = value_or_zero st;
      seq_no = value_or_zero sq;
      valid = is_some st && is_some sq;
    }

pub record KeyedText : Type 0 where
  pub key : Text
  pub text : Text

-- The map `ours`: the last item of a conflicted key counts.
ours_loop : List Text → Option Text → Text → List KeyedText → Option Text
ours_loop conflicted found key [] = found
ours_loop conflicted found key (it ∷ rest) =
    ours_loop conflicted
      (if any (text_eq it.key) conflicted && text_eq it.key key then some it.text else found) key
      rest

unfoldable pub ours : List Text → List KeyedText → Text → Option Text
unfolding ours_loop
ours conflicted items key = ours_loop conflicted none key items

-- Whether our text replaces what is stored under its key.
replaces : Text → Option Text → Bool
unfolding newer_than version_from_text
replaces text stored =
    let our_ver = version_from_text text in
    if not our_ver.valid
    then false
    else elim stored [ none ↦ true | some s ↦ newer_than our_ver (version_from_text s) ]

-- What the transaction on a read lane comes to for a key: an error, or nothing, or the stored ad.
pub data Lookup : Type 0 where
  failed absent : Lookup
  present : Text → Lookup

-- `lookupText`; `none` is the second result `false`, which an error leaves as it is.
unfoldable pub lookup_text : Lookup → Option Text
lookup_text failed = none
lookup_text absent = none
lookup_text (present s) = some s

-- The loop over the conflicted keys. `look` is what a lookup of a key comes to.
rewrite_loop : (Text → Option Text) → (Text → Lookup) → List Text → List KeyedText
unfolding replaces lookup_text
rewrite_loop our_text look [] = []
rewrite_loop our_text look (key ∷ rest) =
    let more = rewrite_loop our_text look rest in
    elim (our_text key) [
      | none ↦ more
      | some text ↦
          if replaces text (lookup_text (look key))
          then record { key = key; text = text } ∷ more
          else more
    ]

-- What is committed again: nothing where the error is no conflict, `none`. An empty result commits
-- nothing, too.
unfoldable pub resolve_conflicts :
    Option (List Text) → (Text → Lookup) → List KeyedText → List KeyedText
unfolding rewrite_loop ours
resolve_conflicts none look items = []
resolve_conflicts (some keys) look items = rewrite_loop (ours keys items) look keys
