-- ===== src/Store/Tables/Listed.antt =====
-- A collection as a list of ads under their keys, the newest first: the instance that the tests of the
-- tables run on. An ad is the list of its attributes, a constraint is a test on ads.
use golang_collector.Base.{
  ◌≡◌, ◌≢◌, refl, sym, ap, ◌∙◌, Bool, true, false, Option, none, some, List, [], ◌∷◌, any, keep,
  length, is_some, All, All-map, Somewhere, inl, inr, if◌then◌else◌, arith, Bool-cases,
}
use golang_collector.Base.Int.{ℤ, parse_int, format_int}
use golang_collector.Base.Text.{Text, text_eq, text_eq_refl, text_eq_iff, to_lower, lines}
use golang_collector.Store.HashKey.{Attrs, Evaluator, lookup, split_attr, unquote}
use golang_collector.Store.RawProject.{RawAd}
use golang_collector.Store.Tables.{Collections}
use golang_collector.Store.Tables.Laws.{IsCollection}

abbrev pub Entries : Type 0
Entries = List (Text × Attrs)

unfoldable pub find : Text → Entries → Option Attrs
find j [] = none
find j ((k, ad) ∷ rest) = if text_eq j k then some ad else find j rest

unfoldable pub drop_key : Text → Entries → Entries
drop_key j [] = []
drop_key j ((k, ad) ∷ rest) =
    let dropped = drop_key j rest in if text_eq k j then dropped else (k, ad) ∷ dropped

-- The ads under keys that no earlier entry has.
unfoldable pub visible : List Text → Entries → List Attrs
visible seen [] = []
visible seen ((k, ad) ∷ rest) =
    if any (text_eq k) seen then visible seen rest else ad ∷ visible (k ∷ seen) rest

unfoldable pub attrs_of : List Text → Attrs
unfolding split_attr unquote
attrs_of [] = []
attrs_of (line ∷ rest) = elim (split_attr line) [
  | none ↦ attrs_of rest
  | some (name, value) ↦ (name, unquote value) ∷ attrs_of rest
]

abbrev pub parse_old : Text → Attrs
parse_old text = attrs_of (lines text)

abbrev raw : List Attrs → List RawAd
raw [] = []
raw (ad ∷ ads) = record { exprs = []; my_type = []; target_type = [] } ∷ raw ads

abbrev pub listed : Collections Attrs (Attrs → Bool)
listed = record {
  Col = Entries;
  new = λ t. [];
  put = λ k ad c. (none, (k, ad) ∷ drop_key k c);
  update_old = λ k text c. (none, (k, parse_old text) ∷ drop_key k c);
  get = find;
  delete = λ k c. (is_some (find k c), drop_key k c);
  scan = visible [];
  query = λ q c. keep q (visible [] c);
  scan_raw = λ redact c. raw (visible [] c);
  query_raw = λ redact q c. raw (keep q (visible [] c));
  scan_raw_projected = λ attrs redact c. raw (visible [] c);
  query_raw_projected = λ attrs redact q c. raw (keep q (visible [] c));
  len = λ c. length (visible [] c);
}

abbrev pub evaluator : Evaluator Attrs
evaluator = record {
  eval_string = λ ad name. lookup ad (to_lower name);
  eval_int = λ ad name. elim (lookup ad (to_lower name)) [ none ↦ none | some v ↦ parse_int v ];
}

abbrev pub insert : Text → ℤ → Attrs → Attrs
insert name v ad = (to_lower name, format_int v) ∷ ad

find-drop_key :
    (k j : Text) (c : Entries) → find j (drop_key k c) ≡ (if text_eq j k then none else find j c)
unfolding find drop_key
find-drop_key k j [] = ground arith
find-drop_key k j ((l, ad) ∷ rest) =
    ground (arith, find-drop_key k j rest, text_eq_iff j l, text_eq_iff l k, text_eq_iff j k)

find-put :
    (k j : Text) (ad : Attrs) (c : Entries)
    → find j ((k, ad) ∷ drop_key k c) ≡ (if text_eq j k then some ad else find j c)
unfolding find
find-put k j ad c = ground (arith, find-drop_key k j c)

seen-not :
    (k x : Text) (seen : List Text)
    → x ≡ k
    → any (text_eq k) seen ≡ true
    → any (text_eq x) seen ≢ false
seen-not k x seen e h p = ground (arith, ap (λ y. any (text_eq y) seen) e)

abbrev Held : List Text → Entries → Attrs → Type 0
Held seen c ad = (k : Text) × (any (text_eq k) seen ≡ false) × (find k c ≡ some ad)

Held-seen :
    (seen : List Text) (k : Text) (ad : Attrs) (rest : Entries) (a : Attrs)
    → any (text_eq k) seen ≡ true
    → Held seen rest a
    → Held seen ((k, ad) ∷ rest) a
unfolding find
Held-seen seen k ad rest a h (x, p, q) = elim (Bool-cases (text_eq x k)) [
  | inl e ↦ absurd (seen-not k x seen ((text_eq_iff x k).0 e) h p)
  | inr e ↦ (x, p, ground arith)
]

Held-new :
    (seen : List Text) (k : Text) (ad : Attrs) (rest : Entries) (a : Attrs)
    → Held (k ∷ seen) rest a
    → Held seen ((k, ad) ∷ rest) a
unfolding find
Held-new seen k ad rest a (x, p, q) = (x, ground arith, ground arith)

-- A visible ad is under a key that is not among those seen.
visible-Held : (seen : List Text) (c : Entries) → All (Held seen c) (visible seen c)
unfolding visible find
visible-Held seen [] = tt
visible-Held seen ((k, ad) ∷ rest) = elim (Bool-cases (any (text_eq k) seen)) [
  | inl h ↦ rw h (
      All-map (Held seen rest) (Held seen ((k, ad) ∷ rest)) (λ a. Held-seen seen k ad rest a h)
        (visible seen rest) (visible-Held seen rest))
  | inr h ↦ rw h (
      (
        (k, h, ground (arith, text_eq_refl k)),
        All-map (Held (k ∷ seen) rest) (Held seen ((k, ad) ∷ rest)) (λ a. Held-new seen k ad rest a)
            (visible (k ∷ seen) rest) (visible-Held (k ∷ seen) rest),
      ))
]

visible-all :
    (seen : List Text) (k : Text) (ad : Attrs) (c : Entries)
    → any (text_eq k) seen ≡ false
    → find k c ≡ some ad
    → Somewhere (λ a. a ≡ ad) (visible seen c)
unfolding visible find
visible-all seen k ad [] h e = ground arith
visible-all seen k ad ((l, a) ∷ rest) h e = elim (Bool-cases (text_eq k l)) [
  | inl g ↦
      rw (ap (λ y. any (text_eq y) seen) (sym ((text_eq_iff k l).0 g)) ∙ h) (inl (ground arith))
  | inr g ↦ elim (Bool-cases (any (text_eq l) seen)) [
    | inl i ↦ rw i (visible-all seen k ad rest h (ground arith))
    | inr i ↦ rw i (inr (visible-all (l ∷ seen) k ad rest (ground arith) (ground arith)))
  ]
]

pub listed-IsCollection : IsCollection listed parse_old (λ q. q)
unfolding find
listed-IsCollection = record {
  get_new = λ t j. refl;
  get_put = λ k j ad c e. find-put k j ad c;
  get_update = λ k j text c e. find-put k j (parse_old text) c;
  delete_present = λ k c. refl;
  get_delete = find-drop_key;
  scan_held = λ c.
      All-map (Held [] c) (λ ad. (k : Text) × (find k c ≡ some ad)) (λ ad h. (h.0, h.2))
        (visible [] c) (visible-Held [] c);
  scan_all = λ k ad c e. visible-all [] k ad c refl e;
  query_scan = λ q c. refl;
}
