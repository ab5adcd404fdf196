-- ===== src/Store/HashKey/Scan.antt =====
-- `scanKeyAttrs`: the map that it builds is the first assignment of each attribute.
use golang_collector.Base.{
  ◌≡◌, true, Option, none, some, List, [], ◌∷◌, arith, any, Option-cases, inl, inr, if◌then◌else◌,
}
use golang_collector.Base.Text.{Text, text_eq, text_eq_iff, lines}
use golang_collector.Store.HashKey.{
  Attrs, lookup, unquote, split_attr, key_attrs, scan_line, scan_lines, scan_key_attrs,
}

-- What an ad in wire text says of an attribute: the value of the first line that assigns it.
pub first_value : Text → List Text → Option Text
first_value name [] = none
first_value name (line ∷ rest) = elim (split_attr line) [
  | none ↦ first_value name rest
  | some (key, value) ↦ if text_eq key name then some (unquote value) else first_value name rest
]

abbrev or_else : Option Text → Option Text → Option Text
or_else none b = b
or_else (some v) b = some v

lookup-scan_line :
    (name line : Text) (out : Attrs)
    → any (text_eq name) key_attrs ≡ true
    → lookup (scan_line out line) name ≡ or_else (lookup out name) (first_value name (line ∷ []))
unfolding scan_line lookup first_value
lookup-scan_line name line out h = elim (Option-cases (split_attr line)) [
  | inl e ↦ ground arith
  | inr ((key, value), e) ↦ ground (arith, text_eq_iff key name)
]

lookup-scan_lines :
    (name : Text) (ls : List Text) (out : Attrs)
    → any (text_eq name) key_attrs ≡ true
    → lookup (scan_lines out ls) name ≡ or_else (lookup out name) (first_value name ls)
unfolding scan_lines first_value
lookup-scan_lines name [] out h = ground arith
lookup-scan_lines name (l ∷ ls) out h =
    ground (arith, lookup-scan_lines name ls (scan_line out l) h, lookup-scan_line name l out h)

-- The map that `scanKeyAttrs` builds from a text has, for each attribute that a key may need, the
-- value of the first line that assigns it, unquoted, and no entry where no line does.
pub scan_key_attrs-first_value :
    (name text : Text)
    → any (text_eq name) key_attrs ≡ true
    → lookup (scan_key_attrs text) name ≡ first_value name (lines text)
unfolding scan_key_attrs
scan_key_attrs-first_value name text h = ground (arith, lookup-scan_lines name (lines text) [] h)
