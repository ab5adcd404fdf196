-- ===== src/Store/Tables/Results.antt =====
-- store/store.go: when an update of the tables fails, and what is found after it.
use golang_collector.Base.{
  ℕ, ◌≡◌, ◌≢◌, ◌++◌, [], ◌∷◌, refl, ap, ◌∙◌, Never, Bool, Option, none, some, ◌⊎◌, inl, inr,
  Option-cases, arith,
}
use golang_collector.Base.Int.{ℤ}
use golang_collector.Base.Text.{Text, text_eq_refl}
use golang_collector.Store.AdType.{AdType, startd_ad, startd_pvt_ad, same_table_refl}
use golang_collector.Store.HashKey.{
  Evaluator, hash_key, hash_key_from_text, attr_name, attr_my_address, attr_my_type,
  attr_last_heard_from,
}
use golang_collector.Store.Tables.{
  Collections, Store, Error, not_a_table, no_key, collection, update, update_old_text, update_pvt,
  get, stored, with_newline, last_heard_line, copy_attr_lines, set_col,
}
use golang_collector.Store.Tables.Laws.{IsCollection, view}
use golang_collector.Store.Tables.Refine.{
  Update, parsed, wire, private, apply, target, written, apply-view,
}

-- The table that an update is for.
unfoldable pub table_of : {Ad : Type 0} → Update Ad → AdType
table_of (parsed t ad) = t
table_of (wire t text) = t
table_of (private public_text pvt_text) = startd_pvt_ad

module _ {Ad Query : Type 0} (cs : Collections Ad Query) (ev : Evaluator Ad)
    (insert_attr : Text → ℤ → Ad → Ad) (parse_old : Text → Ad) where
  -- An update that the program refuses by itself changes nothing.
  pub record IsRefused (now : ℤ) (x : Update Ad) (s : Store cs.Col) (e : Error) : Type 0 where
    pub fails : (apply cs ev insert_attr now x s).0 ≡ some e
    pub unchanged : (apply cs ev insert_attr now x s).1 ≡ s

  -- The key of an update: its ad's, or that of its public startd ad.
  unfoldable pub key_of : Update Ad → Option Text
  key_of (parsed t ad) = hash_key ev t ad
  key_of (wire t text) = hash_key_from_text t text
  key_of (private public_text pvt_text) = hash_key_from_text startd_ad public_text

  -- What the collection is asked to do with an update under a key.
  unfoldable pub write : ℤ → Update Ad → Text → cs.Col → Option ℕ × cs.Col
  write now (parsed t ad) k = cs.put k (insert_attr attr_last_heard_from now ad)
  write now (wire t text) k = cs.update_old k (with_newline text ++ last_heard_line now)
  write now (private public_text pvt_text) k = cs.update_old k (
      copy_attr_lines (attr_name ∷ attr_my_address ∷ attr_my_type ∷ []) public_text
      ++ with_newline pvt_text
      ++ last_heard_line now)

  abbrev pub reported : Option ℕ → Option Error
  reported none = none
  reported (some n) = some (collection n)

  -- The table is there, the update has a key, and the collection's answer to its write is the result:
  -- its error, and the collection that it left.
  pub record Reaches (now : ℤ) (x : Update Ad) (s : Store cs.Col) : Type 0 where
    pub before : cs.Col
    pub key : Text
    pub table_there : s.cols (table_of x) ≡ some before
    pub keyed : key_of x ≡ some key
    pub result : (apply cs ev insert_attr now x s).0 ≡ reported (write now x key before).0
    pub left :
        (apply cs ev insert_attr now x s).1 ≡ set_col (table_of x) (write now x key before).1 s

  stored-reported :
      (t : AdType) (r : Option ℕ × cs.Col) (s : Store cs.Col)
      → ((stored cs t r s).0 ≡ reported r.0) × ((stored cs t r s).1 ≡ set_col t r.1 s)
  stored-reported t (none, c) s = (refl, refl)
  stored-reported t (some n, c) s = (refl, refl)

  reached :
      (now : ℤ) (x : Update Ad) (s : Store cs.Col) (k : Text) (c : cs.Col)
      → s.cols (table_of x) ≡ some c
      → key_of x ≡ some k
      → apply cs ev insert_attr now x s ≡ stored cs (table_of x) (write now x k c) s
      → Reaches now x s
  reached now x s k c h g p =
      let (e, l) = stored-reported (table_of x) (write now x k c) s in
      record {
        before = c;
        key = k;
        table_there = h;
        keyed = g;
        result = ap (λ r. r.0) p ∙ e;
        left = ap (λ r. r.1) p ∙ l;
      }

  -- The table of an update is missing, or it is there and the update has no key.
  abbrev pub Refusal : Update Ad → Store cs.Col → Error → Type 0
  Refusal x s not_a_table = s.cols (table_of x) ≡ none
  Refusal x s no_key = ((c : cs.Col) × (s.cols (table_of x) ≡ some c)) × (key_of x ≡ none)
  Refusal x s _ = Never

  apply-missing :
      (now : ℤ) (x : Update Ad) (s : Store cs.Col)
      → s.cols (table_of x) ≡ none
      → IsRefused now x s not_a_table
  unfolding apply table_of update update_old_text update_pvt
  apply-missing now (parsed t ad) s h = record { fails = ground arith; unchanged = ground arith }
  apply-missing now (wire t text) s h = record { fails = ground arith; unchanged = ground arith }
  apply-missing now (private a b) s h = record { fails = ground arith; unchanged = ground arith }

  apply-no_key :
      (now : ℤ) (x : Update Ad) (s : Store cs.Col) (c : cs.Col)
      → s.cols (table_of x) ≡ some c
      → key_of x ≡ none
      → IsRefused now x s no_key
  unfolding apply table_of key_of update update_old_text update_pvt
  apply-no_key now (parsed t ad) s c h g = record { fails = ground arith; unchanged = ground arith }
  apply-no_key now (wire t text) s c h g = record { fails = ground arith; unchanged = ground arith }
  apply-no_key now (private a b) s c h g = record { fails = ground arith; unchanged = ground arith }

  apply-stored :
      (now : ℤ) (x : Update Ad) (s : Store cs.Col) (k : Text) (c : cs.Col)
      → s.cols (table_of x) ≡ some c
      → key_of x ≡ some k
      → apply cs ev insert_attr now x s ≡ stored cs (table_of x) (write now x k c) s
  unfolding apply table_of key_of write update update_old_text update_pvt
  apply-stored now (parsed t ad) s k c h g = ground arith
  apply-stored now (wire t text) s k c h g = ground arith
  apply-stored now (private a b) s k c h g = ground arith

  -- An update for a kind of ad that has no table is refused as such and changes nothing. One for a table,
  -- whose ad has no key, is refused as such and changes nothing. Any other is written to the collection
  -- of its table, and comes back with that collection's error, if it has one, and what it left.
  pub apply-result :
      (now : ℤ) (x : Update Ad) (s : Store cs.Col)
      → (Refusal x s not_a_table × IsRefused now x s not_a_table)
        ⊎ ((Refusal x s no_key × IsRefused now x s no_key) ⊎ Reaches now x s)
  apply-result now x s = elim (Option-cases (s.cols (table_of x))) [
    | inl h ↦ inl (h, apply-missing now x s h)
    | inr (c, h) ↦ elim (Option-cases (key_of x)) [
      | inl g ↦ inr (inl (((c, h), g), apply-no_key now x s c h g))
      | inr (k, g) ↦ inr (inr (reached now x s k c h g (apply-stored now x s k c h g)))
    ]
  ]

  get-view :
      (t : AdType) (ad : Ad) (k : Text) (s : Store cs.Col)
      → hash_key ev t ad ≡ some k
      → get cs ev t ad s ≡ view cs s t k
  unfolding get view
  get-view t ad k s h = ground arith

  update-no_key :
      (now : ℤ) (t : AdType) (ad : Ad) (s : Store cs.Col)
      → hash_key ev t ad ≡ none
      → (update cs ev insert_attr now t ad s).0 ≢ none
  unfolding update
  update-no_key now t ad s h e = ground arith

  -- An ad that an update has stored is what a lookup of the same ad finds, with its receive time.
  pub get-update :
      {matches : Query → Ad → Bool}
      → IsCollection cs parse_old matches
      → (now : ℤ) (t : AdType) (ad : Ad) (s : Store cs.Col)
      → (update cs ev insert_attr now t ad s).0 ≡ none
      → get cs ev t ad (update cs ev insert_attr now t ad s).1
        ≡ some (insert_attr attr_last_heard_from now ad)
  unfolding target written apply update
  get-update laws now t ad s e = elim (Option-cases (hash_key ev t ad)) [
    | inl h ↦ absurd (update-no_key now t ad s h e)
    | inr (k, h) ↦ ground (
      arith,
      get-view t ad k (update cs ev insert_attr now t ad s).1 h,
      same_table_refl t,
      text_eq_refl k,
      apply-view cs ev insert_attr parse_old laws now (parsed t ad) s t k e,
    )
  ]
