-- ===== src/Store/HashKey.antt =====
-- store/hashkey.go and the attribute names of store/attrs.go: the key that an ad is stored under,
-- from its parsed form and from its wire text.
pub mod Scan
pub mod Identity
pub mod Tests
use golang_collector.Base.{
  ℕ, ◌≡◌, Bool, true, false, Option, none, some, List, [], ◌∷◌, ◌++◌, ◌-◌, ◌==◌, ◌&&◌, leb, length,
  take, any, is_some, map, if◌then◌else◌,
}
use golang_collector.Base.Int.{ℤ, format_int}
use golang_collector.Base.Text.{Text, codes, cut, is_empty, lines, text_eq, to_lower, trim_space}
use golang_collector.Store.AdType.{
  AdType, startd_ad, startd_pvt_ad, schedd_ad, submitter_ad, master_ad,
}

-- store/attrs.go
abbrev pub attr_name : Text
attr_name = codes "Name"

abbrev pub attr_machine : Text
attr_machine = codes "Machine"

abbrev pub attr_my_address : Text
attr_my_address = codes "MyAddress"

abbrev pub attr_my_type : Text
attr_my_type = codes "MyType"

abbrev pub attr_slot_id : Text
attr_slot_id = codes "SlotID"

abbrev pub attr_startd_ip_addr : Text
attr_startd_ip_addr = codes "StartdIpAddr"

abbrev pub attr_schedd_name : Text
attr_schedd_name = codes "ScheddName"

abbrev pub attr_schedd_ip_addr : Text
attr_schedd_ip_addr = codes "ScheddIpAddr"

abbrev pub attr_last_heard_from : Text
attr_last_heard_from = codes "LastHeardFrom"

abbrev pub attr_classad_lifetime : Text
attr_classad_lifetime = codes "ClassAdLifetime"

-- The value of an attribute; `none` is the second result `false`.
abbrev pub Get : Type 0
Get = Text → Option Text

-- The first attribute with a value that is not empty; "" if there is none.
unfoldable pub first_of : Get → List Text → Text
first_of get [] = []
first_of get (a ∷ rest) = elim (get a) [
  | none ↦ first_of get rest
  | some v ↦ if is_empty v then first_of get rest else v
]

-- A value that is present and not empty.
abbrev non_empty : Option Text → Option Text
non_empty none = none
non_empty (some v) = if is_empty v then none else some v

-- Name, or else Machine; `none` where the source returns false.
unfoldable pub usable_name : Get → Option Text
usable_name get = elim (non_empty (get attr_name)) [
  | some name ↦ some name
  | none ↦ non_empty (get attr_machine)
]

abbrev or_nothing : Option Text → Text
or_nothing none = []
or_nothing (some v) = v

-- `name` with what the table adds to it.
pub key_name : AdType → Get → Text → Text
key_name startd_ad get name = elim (non_empty (get attr_slot_id)) [
  | none ↦ name
  | some slot ↦ name ++ b':' ∷ slot
]
key_name startd_pvt_ad get name = elim (non_empty (get attr_slot_id)) [
  | none ↦ name
  | some slot ↦ name ++ b':' ∷ slot
]
key_name schedd_ad get name = name ++ or_nothing (get attr_schedd_name)
key_name submitter_ad get name = name ++ or_nothing (get attr_schedd_name)
key_name _ get name = name

pub key_addr : AdType → Get → Text
key_addr startd_ad get = first_of get (attr_my_address ∷ attr_startd_ip_addr ∷ [])
key_addr startd_pvt_ad get = first_of get (attr_my_address ∷ attr_startd_ip_addr ∷ [])
key_addr schedd_ad get = first_of get (attr_my_address ∷ attr_schedd_ip_addr ∷ [])
key_addr submitter_ad get = first_of get (attr_my_address ∷ attr_schedd_ip_addr ∷ [])
key_addr master_ad get = []
key_addr _ get = or_nothing (get attr_my_address)

unfoldable pub key_fields : AdType → Get → Option Text
unfolding usable_name key_name key_addr first_of
key_fields t get = elim (usable_name get) [
  | none ↦ none
  | some name ↦ some (key_name t get name ++ 0 ∷ key_addr t get)
]

-- What the classad library evaluates of an ad: an attribute as a string, and as an integer.
pub record Evaluator (Ad : Type 0) : Type 0 where
  pub eval_string : Ad → Text → Option Text
  pub eval_int : Ad → Text → Option ℤ

unfoldable pub hash_key : {Ad : Type 0} → Evaluator Ad → AdType → Ad → Option Text
unfolding key_fields
hash_key ev t ad = key_fields t λ attr.
    if text_eq attr attr_slot_id
    then elim (ev.eval_int ad attr) [ none ↦ none | some v ↦ some (format_int v) ]
    else ev.eval_string ad attr

-- The map `keyAttrs`, in lower case.
pub key_attrs : List Text
key_attrs = map to_lower (
    attr_name ∷ attr_machine ∷ attr_my_address ∷ attr_slot_id ∷ attr_startd_ip_addr
    ∷ attr_schedd_name ∷ attr_schedd_ip_addr ∷ [])

-- A Go map from attribute names to values.
abbrev pub Attrs : Type 0
Attrs = List (Text × Text)

unfoldable pub lookup : Attrs → Text → Option Text
lookup [] name = none
lookup ((key, v) ∷ rest) name = if text_eq key name then some v else lookup rest name

ends_with_quote : Text → Bool
ends_with_quote [] = false
ends_with_quote (d ∷ []) = d == b'"'
ends_with_quote (d ∷ e ∷ r) = ends_with_quote (e ∷ r)

-- `"v"` without its quotes; a value that is not quoted stays.
unfoldable pub unquote : Text → Text
unfolding ends_with_quote
unquote [] = []
unquote (c ∷ s) = if c == b'"' && ends_with_quote s then take (length s - 1) s else c ∷ s

-- The name and the value of a line `name = value`, the name in lower case.
unfoldable pub split_attr : Text → Option (Text × Text)
unfolding cut to_lower trim_space
split_attr line = elim (cut b'=' line) [
  | none ↦ none
  | some (before, after) ↦ some (to_lower (trim_space before), trim_space after)
]

-- The body of the loop of `scanKeyAttrs`.
scan_line : Attrs → Text → Attrs
unfolding split_attr lookup unquote key_attrs
scan_line out line = elim (split_attr line) [
  | none ↦ out
  | some (name, value) ↦
      if any (text_eq name) key_attrs
      then if is_some (lookup out name) then out else (name, unquote value) ∷ out
      else out
]

scan_lines : Attrs → List Text → Attrs
scan_lines out [] = out
scan_lines out (line ∷ rest) = scan_lines (scan_line out line) rest

unfoldable pub scan_key_attrs : Text → Attrs
unfolding scan_lines scan_line lines
scan_key_attrs text = scan_lines [] (lines text)

unfoldable pub hash_key_from_text : AdType → Text → Option Text
unfolding scan_key_attrs key_fields lookup to_lower
hash_key_from_text t text = key_fields t λ attr. lookup (scan_key_attrs text) (to_lower attr)
