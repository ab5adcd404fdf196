-- ===== src/Store/AdType.antt =====
-- store/adtype.go: the tables of the collector, their names, and the names that queries and
-- watches give them.
pub mod Names
use golang_collector.Base.{
  ℕ, ◌==◌, ◌≡◌, arith, Bool, true, ◌||◌, Option, none, some, List, [], ◌∷◌, ◌++◌, if◌then◌else◌,
}
use golang_collector.Base.Text.{Text, codes, text_eq, to_lower}

pub data AdType : Type 0 where
  any_ad startd_ad startd_pvt_ad schedd_ad master_ad submitter_ad collector_ad : AdType
  negotiator_ad license_ad storage_ad ckpt_srvr_ad accounting_ad grid_ad had_ad : AdType
  generic_ad : AdType

-- The tables from `AnyAd + 1` up to `numAdTypes`, in the order of the constants.
abbrev pub storage_types : List AdType
storage_types =
    startd_ad ∷ startd_pvt_ad ∷ schedd_ad ∷ master_ad ∷ submitter_ad ∷ collector_ad ∷ negotiator_ad
    ∷ license_ad ∷ storage_ad ∷ ckpt_srvr_ad ∷ accounting_ad ∷ grid_ad ∷ had_ad ∷ generic_ad ∷ []

-- The map `myType` behind `MyType`; a missing key reads as "".
unfoldable pub my_type : AdType → Text
my_type any_ad = []
my_type startd_ad = codes "Machine"
my_type startd_pvt_ad = codes "Machine"
my_type schedd_ad = codes "Scheduler"
my_type master_ad = codes "DaemonMaster"
my_type submitter_ad = codes "Submitter"
my_type collector_ad = codes "Collector"
my_type negotiator_ad = codes "Negotiator"
my_type license_ad = codes "License"
my_type storage_ad = codes "Storage"
my_type ckpt_srvr_ad = codes "CkptServer"
my_type accounting_ad = codes "Accounting"
my_type grid_ad = codes "Grid"
my_type had_ad = codes "HAD"
my_type generic_ad = codes "Generic"

-- The map `adTypeName`, which has every table.
unfoldable pub ad_type_name : AdType → Text
ad_type_name any_ad = codes "Any"
ad_type_name startd_ad = codes "Startd"
ad_type_name startd_pvt_ad = codes "StartdPvt"
ad_type_name schedd_ad = codes "Schedd"
ad_type_name master_ad = codes "Master"
ad_type_name submitter_ad = codes "Submitter"
ad_type_name collector_ad = codes "Collector"
ad_type_name negotiator_ad = codes "Negotiator"
ad_type_name license_ad = codes "License"
ad_type_name storage_ad = codes "Storage"
ad_type_name ckpt_srvr_ad = codes "CkptSrvr"
ad_type_name accounting_ad = codes "Accounting"
ad_type_name grid_ad = codes "Grid"
ad_type_name had_ad = codes "HAD"
ad_type_name generic_ad = codes "Generic"

-- The map `targetToAd`.
target_to_ad : List (Text × AdType)
target_to_ad =
    (codes "Machine", startd_ad)
    ∷ (codes "Slot", startd_ad)
    ∷ (codes "StartdPvt", startd_pvt_ad)
    ∷ (codes "Scheduler", schedd_ad)
    ∷ (codes "DaemonMaster", master_ad)
    ∷ (codes "Submitter", submitter_ad)
    ∷ (codes "Collector", collector_ad)
    ∷ (codes "Negotiator", negotiator_ad)
    ∷ (codes "License", license_ad)
    ∷ (codes "Storage", storage_ad)
    ∷ (codes "CkptServer", ckpt_srvr_ad)
    ∷ (codes "Accounting", accounting_ad)
    ∷ (codes "Grid", grid_ad)
    ∷ (codes "HAD", had_ad)
    ∷ (codes "Generic", generic_ad)
    ∷ []

find_target : Text → List (Text × AdType) → Option AdType
find_target name [] = none
find_target name ((key, t) ∷ rest) = if text_eq key name then some t else find_target name rest

-- `none` is the second result `false`.
unfoldable pub ad_type_for_target : Text → Option AdType
unfolding find_target target_to_ad
ad_type_for_target name = find_target name target_to_ad

-- strings.EqualFold
abbrev pub equal_fold : Text → Text → Bool
equal_fold s t = text_eq (to_lower s) (to_lower t)

names_table : Text → AdType → Bool
names_table name t =
    equal_fold (ad_type_name t) name || equal_fold (ad_type_name t ++ codes "Ad") name

-- The loop over the tables; every table has a name, so the test `n != ""` always passes.
find_by_name : Text → List AdType → Option AdType
find_by_name name [] = none
find_by_name name (t ∷ rest) = if names_table name t then some t else find_by_name name rest

unfoldable pub ad_type_by_name : Text → Option AdType
unfolding find_by_name names_table ad_type_for_target
ad_type_by_name name = elim (ad_type_for_target name) [
  | some t ↦ some t
  | none ↦ find_by_name name storage_types
]

-- Whether two tables are the same.
abbrev pub index : AdType → ℕ
index any_ad = 0
index startd_ad = 1
index startd_pvt_ad = 2
index schedd_ad = 3
index master_ad = 4
index submitter_ad = 5
index collector_ad = 6
index negotiator_ad = 7
index license_ad = 8
index storage_ad = 9
index ckpt_srvr_ad = 10
index accounting_ad = 11
index grid_ad = 12
index had_ad = 13
index generic_ad = 14

abbrev pub same_table : AdType → AdType → Bool
same_table s t = index s == index t

pub same_table_refl : (t : AdType) → same_table t t ≡ true
same_table_refl t = ground arith

pub same_table_sound : (s t : AdType) → same_table s t ≡ true → s ≡ t
same_table_sound s t h = ground arith
