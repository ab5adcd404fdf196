-- ===== src/Store/Tables.antt =====
-- store/store.go: the tables of ads in memory. A collection of the ClassAd library is a parameter,
-- as are the evaluation of an ad and the parsing of its text.
pub mod Query
pub mod Sweep
pub mod Laws
pub mod Refine
pub mod Expiry
pub mod Results
pub mod Removal
pub mod Listed
pub mod Tests
use golang_collector.Base.{
  ℕ, ◌≡◌, Bool, true, false, ◌&&◌, ◌||◌, not, ◌==◌, Option, none, some, List, [], ◌∷◌, ◌++◌, map,
  any, if◌then◌else◌,
}
use golang_collector.Base.Text.{
  Text, codes, newline, text_eq, to_lower, trim_space, cut, split_lines,
}
use golang_collector.Base.Int.{ℤ, pos, format_int}
use golang_collector.Store.AdType.{AdType, any_ad, startd_ad, startd_pvt_ad, same_table}
use golang_collector.Store.HashKey.{
  Evaluator, hash_key, hash_key_from_text, attr_name, attr_my_address, attr_my_type,
  attr_last_heard_from,
}
use golang_collector.Store.RawProject.{RawAd}

-- `collections.Collection`: the operations that the store calls. `Query` is a compiled constraint.
pub record Collections (Ad Query : Type 0) : Type 1 where
  pub Col : Type 0
  pub new : AdType → Col
  pub put : Text → Ad → Col → Option ℕ × Col
  pub update_old : Text → Text → Col → Option ℕ × Col
  pub get : Text → Col → Option Ad
  pub delete : Text → Col → Bool × Col
  pub scan : Col → List Ad
  pub query : Query → Col → List Ad
  -- The ads in wire form: of all ads or of those that match, with a projection, redacted or not.
  pub scan_raw : Bool → Col → List RawAd
  pub query_raw : Bool → Query → Col → List RawAd
  pub scan_raw_projected : List Text → Bool → Col → List RawAd
  pub query_raw_projected : List Text → Bool → Query → Col → List RawAd
  pub len : Col → ℕ

pub data Error : Type 0 where
  not_a_table no_key bad_constraint : Error
  collection : ℕ → Error

pub record Store (Col : Type 0) : Type 0 where
  pub cols : AdType → Option Col
  pub default_lifetime : ℤ

-- A table is replaced; the others stay.
unfoldable pub set_col : {Col : Type 0} → AdType → Col → Store Col → Store Col
set_col t c s = record s { cols = λ u. if same_table u t then some c else s.cols u }

ends_with_newline : Text → Bool
ends_with_newline [] = false
ends_with_newline (c ∷ []) = c == newline
ends_with_newline (c ∷ d ∷ r) = ends_with_newline (d ∷ r)

abbrev with_newline : Text → Text
with_newline text = if ends_with_newline text then text else text ++ newline ∷ []

abbrev last_heard_line : ℤ → Text
last_heard_line now = attr_last_heard_from ++ codes " = " ++ format_int now ++ newline ∷ []

-- A trailing run of `\r` is cut off.
trim_cr : Text → Text
trim_cr [] = []
trim_cr (c ∷ s) =
    let rest = trim_cr s in elim rest [ [] ↦ if c == 13 then [] else c ∷ [] | d ∷ r ↦ c ∷ d ∷ r ]

-- The loop of `copyAttrLines`: `seen` has the names already copied, in lower case.
copy_lines : List Text → List Text → List Text → Text
copy_lines want seen [] = []
copy_lines want seen (line ∷ rest) = elim (cut b'=' line) [
  | none ↦ copy_lines want seen rest
  | some (before, after) ↦
      let name = to_lower (trim_space before) in
      if any (text_eq name) want && not (any (text_eq name) seen)
      then trim_cr line ++ newline ∷ copy_lines want (name ∷ seen) rest
      else copy_lines want seen rest
]

unfoldable pub copy_attr_lines : List Text → Text → Text
unfolding copy_lines trim_cr
copy_attr_lines attrs text = copy_lines (map to_lower attrs) [] (split_lines text)

module _ {Ad Query : Type 0} (cs : Collections Ad Query) where
  unfoldable pub new : Store cs.Col
  new = record {
    cols = λ t. if same_table t any_ad then none else some (cs.new t);
    default_lifetime = pos 900;
  }

  -- The table after an operation of its collection; an error of it is passed on.
  abbrev stored : AdType → Option ℕ × cs.Col → Store cs.Col → Option Error × Store cs.Col
  stored t (none, c) s = (none, set_col t c s)
  stored t (some e, c) s = (some (collection e), set_col t c s)

  -- `insert_attr` sets an integer attribute of an ad.
  unfoldable pub update :
      Evaluator Ad
      → (Text → ℤ → Ad → Ad)
      → ℤ
      → AdType
      → Ad
      → Store cs.Col
      → Option Error × Store cs.Col
  update ev insert_attr now t ad s = elim (s.cols t) [
    | none ↦ (some not_a_table, s)
    | some c ↦ elim (hash_key ev t ad) [
      | none ↦ (some no_key, s)
      | some key ↦ stored t (cs.put key (insert_attr attr_last_heard_from now ad) c) s
    ]
  ]

  unfoldable pub update_old_text : ℤ → AdType → Text → Store cs.Col → Option Error × Store cs.Col
  unfolding ends_with_newline
  update_old_text now t text s = elim (s.cols t) [
    | none ↦ (some not_a_table, s)
    | some c ↦ elim (hash_key_from_text t text) [
      | none ↦ (some no_key, s)
      | some key ↦ stored t (cs.update_old key (with_newline text ++ last_heard_line now) c) s
    ]
  ]

  -- A private ad is kept under the key of its public ad, in the private table.
  unfoldable pub update_pvt : ℤ → Text → Text → Store cs.Col → Option Error × Store cs.Col
  unfolding ends_with_newline copy_attr_lines
  update_pvt now public_text pvt_text s = elim (s.cols startd_pvt_ad) [
    | none ↦ (some not_a_table, s)
    | some c ↦ elim (hash_key_from_text startd_ad public_text) [
      | none ↦ (some no_key, s)
      | some key ↦
          let header =
            copy_attr_lines (attr_name ∷ attr_my_address ∷ attr_my_type ∷ []) public_text in
          let text = header ++ with_newline pvt_text ++ last_heard_line now in
          stored startd_pvt_ad (cs.update_old key text c) s
    ]
  ]

  unfoldable pub get : Evaluator Ad → AdType → Ad → Store cs.Col → Option Ad
  get ev t ad s = elim (s.cols t) [
    | none ↦ none
    | some c ↦ elim (hash_key ev t ad) [ none ↦ none | some key ↦ cs.get key c ]
  ]

  unfoldable pub len : AdType → Store cs.Col → ℕ
  len t s = elim (s.cols t) [ none ↦ 0 | some c ↦ cs.len c ]
