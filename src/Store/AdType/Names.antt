-- ===== src/Store/AdType/Names.antt =====
-- The names of the tables, read back.
use golang_collector.Base.{
  ◌≡◌, refl, ap, ◌∙◌, Bool, true, false, not, ◌&&◌, ◌||◌, none, some, List, [], ◌∷◌, ◌++◌, arith,
  ◌⊎◌, inl, inr, if◌then◌else◌,
}
use golang_collector.Base.Text.{Text, codes, text_eq, text_eq_iff, to_lower}
use golang_collector.Store.AdType.{
  AdType, any_ad, startd_ad, startd_pvt_ad, my_type, ad_type_name, target_to_ad, find_target,
  ad_type_for_target, equal_fold, names_table, find_by_name, ad_type_by_name, storage_types,
  same_table, same_table_sound,
}

-- The type that the ads of a table advertise is a query target that selects the table, except
-- that the private startd table's is that of the public one.
pub ad_type_for_target-my_type :
    (t : AdType)
    → same_table t any_ad ≡ false
    → ad_type_for_target (my_type t) ≡ some (if same_table t startd_pvt_ad then startd_ad else t)
unfolding ad_type_for_target my_type
ad_type_for_target-my_type any_ad h = cc
ad_type_for_target-my_type startd_ad h = refl
ad_type_for_target-my_type _ h = refl

-- Every entry whose key folds to `name` is for the table `t`.
only_table : Text → AdType → List (Text × AdType) → Bool
only_table name t [] = true
only_table name t ((key, u) ∷ rest) =
    (not (equal_fold key name) || same_table u t) && only_table name t rest

fold_subst :
    (key name s : Text)
    → text_eq key s ≡ true
    → to_lower s ≡ to_lower name
    → equal_fold key name ≡ true
fold_subst key name s h e =
    (text_eq_iff (to_lower key) (to_lower name)).1 (ap to_lower ((text_eq_iff key s).0 h) ∙ e)

find_target-only :
    (name s : Text) (t : AdType) (table : List (Text × AdType))
    → to_lower s ≡ to_lower name
    → only_table name t table ≡ true
    → (find_target s table ≡ none) ⊎ (find_target s table ≡ some t)
unfolding find_target only_table
find_target-only name s t [] e h = inl refl
find_target-only name s t ((key, u) ∷ rest) e h =
    ground (arith, fold_subst key name s, same_table_sound u t, find_target-only name s t rest e)

find_by_name-fold :
    (name s : Text) (types : List AdType)
    → to_lower s ≡ to_lower name
    → find_by_name s types ≡ find_by_name name types
unfolding find_by_name names_table
find_by_name-fold name s [] e = refl
find_by_name-fold name s (t ∷ rest) e = rw (e, find_by_name-fold name s rest e)

resolve :
    (name s : Text) (t : AdType)
    → to_lower s ≡ to_lower name
    → only_table name t target_to_ad ≡ true
    → find_by_name name storage_types ≡ some t
    → ad_type_by_name s ≡ some t
unfolding ad_type_by_name
resolve name s t e h k =
    ground
      (arith, find_target-only name s t target_to_ad e h, find_by_name-fold name s storage_types e)

-- A watch that names a table in any case, with or without the suffix "Ad", gets that table.
pub ad_type_by_name-fold :
    (t : AdType) (s : Text)
    → same_table t any_ad ≡ false
    → (to_lower s ≡ to_lower (ad_type_name t))
      ⊎ (to_lower s ≡ to_lower (ad_type_name t ++ codes "Ad"))
    → ad_type_by_name s ≡ some t
unfolding ad_type_by_name to_lower ad_type_name only_table target_to_ad
ad_type_by_name-fold any_ad s h e = cc
ad_type_by_name-fold startd_ad s h (inl e) =
    resolve (ad_type_name startd_ad) s startd_ad e refl refl
ad_type_by_name-fold t s h (inl e) = resolve (ad_type_name t) s t e refl refl
ad_type_by_name-fold startd_ad s h (inr e) =
    resolve (ad_type_name startd_ad ++ codes "Ad") s startd_ad e refl refl
ad_type_by_name-fold t s h (inr e) = resolve (ad_type_name t ++ codes "Ad") s t e refl refl
