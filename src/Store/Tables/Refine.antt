-- ===== src/Store/Tables/Refine.antt =====
-- store/store.go: the updates of the tables, as writes to a map from tables and keys to ads.
use golang_collector.Base.{
  ℕ, ◌≡◌, ◌∙◌, refl, sym, ap, Bool, ◌&&◌, Option, none, some, List, [], ◌∷◌, ◌++◌, if◌then◌else◌,
  arith, inl, inr, Bool-cases, Option-cases,
}
use golang_collector.Base.Int.{ℤ}
use golang_collector.Base.Text.{Text, text_eq}
use golang_collector.Store.AdType.{AdType, startd_ad, startd_pvt_ad, same_table, same_table_sound}
use golang_collector.Store.HashKey.{
  Evaluator, hash_key, hash_key_from_text, attr_name, attr_my_address, attr_my_type,
  attr_last_heard_from,
}
use golang_collector.Store.Tables.{
  Collections, Store, Error, stored, update, update_old_text, update_pvt, with_newline,
  last_heard_line, copy_attr_lines,
}
use golang_collector.Store.Tables.Laws.{IsCollection, view, view-some, view-set_col}

-- The three ways to write an ad: parsed, as wire text, and private, with its public ad's wire text.
pub data Update (Ad : Type 0) : Type 0 where
  parsed : AdType → Ad → Update Ad
  wire : AdType → Text → Update Ad
  private : Text → Text → Update Ad

-- A write of an ad under a key of a table.
pub record Write (Ad : Type 0) : Type 0 where
  pub table : AdType
  pub key : Text
  pub ad : Ad

module _ {Ad Query : Type 0} (cs : Collections Ad Query) (ev : Evaluator Ad)
    (insert_attr : Text → ℤ → Ad → Ad) where
  unfoldable pub apply : ℤ → Update Ad → Store cs.Col → Option Error × Store cs.Col
  apply now (parsed t ad) s = update cs ev insert_attr now t ad s
  apply now (wire t text) s = update_old_text cs now t text s
  apply now (private public_text pvt_text) s = update_pvt cs now public_text pvt_text s

  -- The updates, one after the other, each at its time.
  unfoldable pub apply_all : List (ℤ × Update Ad) → Store cs.Col → Store cs.Col
  apply_all [] s = s
  apply_all ((now, u) ∷ us) s = apply_all us (apply now u s).1

  -- All of them succeed.
  abbrev pub Accepted : List (ℤ × Update Ad) → Store cs.Col → Type 0
  Accepted [] s = Unit
  Accepted ((now, u) ∷ us) s = ((apply now u s).0 ≡ none) × Accepted us (apply now u s).1

  module _ (parse_old : Text → Ad) where
    -- Where an update belongs, and the ad that it leaves there, stamped; `none` if it has no key.
    unfoldable pub target : ℤ → Update Ad → Option (Write Ad)
    target now (parsed t ad) = elim (hash_key ev t ad) [
      | none ↦ none
      | some k ↦ some (record { table = t; key = k; ad = insert_attr attr_last_heard_from now ad })
    ]
    target now (wire t text) = elim (hash_key_from_text t text) [
      | none ↦ none
      | some k ↦
          some (record {
            table = t;
            key = k;
            ad = parse_old (with_newline text ++ last_heard_line now);
          })
    ]
    target now (private public_text pvt_text) = elim (hash_key_from_text startd_ad public_text) [
      | none ↦ none
      | some k ↦ some (record {
        table = startd_pvt_ad;
        key = k;
        ad = parse_old (
            copy_attr_lines (attr_name ∷ attr_my_address ∷ attr_my_type ∷ []) public_text
            ++ with_newline pvt_text
            ++ last_heard_line now);
      })
    ]

    -- What is under a key after a write, where `old` was before.
    unfoldable pub written : Option (Write Ad) → AdType → Text → Option Ad → Option Ad
    written none u j old = old
    written (some w) u j old = if same_table u w.table && text_eq j w.key then some w.ad else old

    -- What is under a key after the updates: the last one that belongs there, or else `old`.
    unfoldable pub latest : List (ℤ × Update Ad) → AdType → Text → Option Ad → Option Ad
    latest [] u j old = old
    latest ((now, x) ∷ xs) u j old = latest xs u j (written (target now x) u j old)

    module _ {matches : Query → Ad → Bool} (laws : IsCollection cs parse_old matches) where
      stored-view :
          (t : AdType) (k : Text) (ad : Ad) (r : Option ℕ × cs.Col) (c : cs.Col) (s : Store cs.Col)
          (u : AdType) (j : Text)
          → s.cols t ≡ some c
          → (r.0 ≡ none → cs.get j r.1 ≡ (if text_eq j k then some ad else cs.get j c))
          → (stored cs t r s).0 ≡ none
          → view cs (stored cs t r s).1 u j
            ≡ written (some (record { table = t; key = k; ad = ad })) u j (view cs s u j)
      unfolding written
      stored-view t k ad (some e, d) c s u j h law ok = ground arith
      stored-view t k ad (none, d) c s u j h law ok = elim (Bool-cases (same_table u t)) [
        | inl g ↦ ground (
          arith,
          view-set_col cs s t u d j,
          law refl,
          view-some cs s u c j (ap s.cols (same_table_sound u t g) ∙ h),
        )
        | inr g ↦ ground (arith, view-set_col cs s t u d j)
      ]

      apply-view_stored :
          (now : ℤ) (x : Update Ad) (s : Store cs.Col) (u : AdType) (j : Text) (w : Write Ad)
          (r : Option ℕ × cs.Col) (c : cs.Col)
          → apply now x s ≡ stored cs w.table r s
          → target now x ≡ some w
          → s.cols w.table ≡ some c
          → (r.0 ≡ none → cs.get j r.1 ≡ (if text_eq j w.key then some w.ad else cs.get j c))
          → (apply now x s).0 ≡ none
          → view cs (apply now x s).1 u j ≡ written (target now x) u j (view cs s u j)
      apply-view_stored now x s u j w r c p q h law e =
          rw (p, q) (stored-view w.table w.key w.ad r c s u j h law (rw p at e))

      pub apply-view :
          (now : ℤ) (x : Update Ad) (s : Store cs.Col) (u : AdType) (j : Text)
          → (apply now x s).0 ≡ none
          → view cs (apply now x s).1 u j ≡ written (target now x) u j (view cs s u j)
      unfolding apply target written update update_old_text update_pvt
      apply-view now (parsed t ad) s u j e =
          let stamped = insert_attr attr_last_heard_from now ad in
          elim (Option-cases (s.cols t)) [
            | inl h ↦ ground arith
            | inr (c, h) ↦ elim (Option-cases (hash_key ev t ad)) [
              | inl g ↦ ground arith
              | inr (k, g) ↦
                  apply-view_stored now (parsed t ad) s u j
                    (record { table = t; key = k; ad = stamped }) (cs.put k stamped c) c
                    (ground arith) (ground arith) h (laws.get_put k j stamped c) e
            ]
          ]
      apply-view now (wire t text) s u j e =
          let stamped = with_newline text ++ last_heard_line now in
          elim (Option-cases (s.cols t)) [
            | inl h ↦ ground arith
            | inr (c, h) ↦ elim (Option-cases (hash_key_from_text t text)) [
              | inl g ↦ ground arith
              | inr (k, g) ↦
                  apply-view_stored now (wire t text) s u j
                    (record { table = t; key = k; ad = parse_old stamped })
                    (cs.update_old k stamped c) c (ground arith) (ground arith) h
                    (laws.get_update k j stamped c) e
            ]
          ]
      apply-view now (private public_text pvt_text) s u j e =
          let stamped =
            copy_attr_lines (attr_name ∷ attr_my_address ∷ attr_my_type ∷ []) public_text
            ++ with_newline pvt_text
            ++ last_heard_line now in
          elim (Option-cases (s.cols startd_pvt_ad)) [
            | inl h ↦ ground arith
            | inr (c, h) ↦ elim (Option-cases (hash_key_from_text startd_ad public_text)) [
              | inl g ↦ ground arith
              | inr (k, g) ↦
                  apply-view_stored now (private public_text pvt_text) s u j
                    (record { table = startd_pvt_ad; key = k; ad = parse_old stamped })
                    (cs.update_old k stamped c) c (ground arith) (ground arith) h
                    (laws.get_update k j stamped c) e
            ]
          ]

      -- A table holds, under each key, the ad of the last of the updates that belong there, where all of
      -- them succeed, and what it held before where none does.
      pub apply_all-latest :
          (xs : List (ℤ × Update Ad)) (s : Store cs.Col) (u : AdType) (j : Text)
          → Accepted xs s
          → view cs (apply_all xs s) u j ≡ latest xs u j (view cs s u j)
      unfolding apply_all latest
      apply_all-latest [] s u j h = refl
      apply_all-latest ((now, x) ∷ xs) s u j h =
          rw (sym (apply-view now x s u j h.0)) (apply_all-latest xs (apply now x s).1 u j h.1)
