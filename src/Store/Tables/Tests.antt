-- ===== src/Store/Tables/Tests.antt =====
-- Runs of store/store.go over tables as lists.
use golang_collector.Base.{
  ◌≡◌, ◌≢◌, refl, Bool, true, none, some, [], ◌∷◌, ◌++◌, List, ◌⊎◌, inl, inr, Bool-cases, arith,
  if◌then◌else◌, is_some,
}
use golang_collector.Base.Int.{ℤ, pos, parse_int, format_int}
use golang_collector.Base.Text.{Text, codes, text_eq, text_eq_iff, to_lower}
use golang_collector.Store.AdType.{AdType, any_ad, startd_ad, startd_pvt_ad, same_table}
use golang_collector.Store.HashKey.{
  Attrs, lookup, hash_key, hash_key_from_text, attr_last_heard_from,
}
use golang_collector.Store.Tables.{
  Store, not_a_table, no_key, update, update_old_text, update_pvt, get, set_col,
}
use golang_collector.Store.Tables.Query.{query, query_raw, query_raw_project, query-any_private}
use golang_collector.Store.Tables.Sweep.{is_stale, expire, remove}
use golang_collector.Store.Tables.Laws.{view, Keyed, without, passes}
use golang_collector.Store.Tables.Refine.{
  Update, parsed, wire, private, apply, apply_all, latest, apply_all-latest,
}
use golang_collector.Store.Tables.Expiry.{expire-view, expire-private_kept}
use golang_collector.Store.Tables.Removal.{remove-matching, remove-private}
use golang_collector.Store.Tables.Results.{IsRefused, Refusal, Reaches, apply-result, get-update}
use golang_collector.Store.Tables.Listed.{
  Entries, listed, listed-IsCollection, evaluator, insert, parse_old, find, visible,
}

abbrev empty : Store Entries
empty = record {
  cols = λ t. if same_table t any_ad then none else some [];
  default_lifetime = pos 900;
}

abbrev public_text : Text
public_text = codes "Name = \"slot1@h\"\nMyAddress = \"<a>\"\nSlotID = 1\n"

abbrev secret : Text
secret = codes "Capability = \"c\""

abbrev history : List (ℤ × Update Attrs)
history = (pos 100, wire startd_ad public_text) ∷ (pos 100, private public_text secret) ∷ []

abbrev slot_key : Text
slot_key = codes "slot1@h:1" ++ 0 ∷ codes "<a>"

apply_all-latest_example :
    view listed (apply_all listed evaluator insert history empty) startd_pvt_ad slot_key
    ≡ latest listed evaluator insert parse_old history startd_pvt_ad slot_key none
unfolding view apply update_old_text hash_key_from_text update_pvt set_col find
apply_all-latest_example =
    apply_all-latest listed evaluator insert parse_old listed-IsCollection history empty
      startd_pvt_ad slot_key (refl, (refl, tt))

abbrev slot : Attrs
slot =
    (codes "lastheardfrom", codes "100")
    ∷ (codes "name", codes "slot1@h")
    ∷ (codes "slotid", codes "1")
    ∷ (codes "myaddress", codes "<a>")
    ∷ []

-- The private ad, which has no slot number.
abbrev claim : Attrs
claim =
    (codes "lastheardfrom", codes "100")
    ∷ (codes "name", codes "slot1@h")
    ∷ (codes "myaddress", codes "<a>")
    ∷ (codes "capability", codes "c")
    ∷ []

abbrev kept : Attrs → Entries
kept ad = (slot_key, ad) ∷ []

abbrev pool : Store Entries
pool = set_col startd_pvt_ad (kept claim) (set_col startd_ad (kept slot) empty)

kept-Keyed :
    (t : AdType) (ad : Attrs)
    → hash_key evaluator t ad ≡ some slot_key
    → Keyed listed evaluator t (kept ad)
unfolding Keyed find
kept-Keyed t ad h k a e = elim (Bool-cases (text_eq k slot_key)) [
  | inl g ↦ ground (arith, (text_eq_iff k slot_key).0 g)
  | inr g ↦ ground arith
]

slot-hash_key : hash_key evaluator startd_ad slot ≡ some slot_key
unfolding hash_key lookup to_lower parse_int format_int
slot-hash_key = refl

claim-hash_key : hash_key evaluator startd_pvt_ad claim ≡ some (codes "slot1@h" ++ 0 ∷ codes "<a>")
unfolding hash_key lookup to_lower
claim-hash_key = refl

claim-other_key : hash_key evaluator startd_pvt_ad claim ≢ some slot_key
claim-other_key e = ground (arith, claim-hash_key)

slot-Keyed : Keyed listed evaluator startd_ad (kept slot)
slot-Keyed = kept-Keyed startd_ad slot slot-hash_key

abbrev in_slot : Attrs → Bool
in_slot ad = is_some (lookup ad (codes "slotid"))

query-any_private_example :
    (query listed (λ s. none) (set_col startd_pvt_ad [] pool) any_ad (codes "TRUE")
      ≡ query listed (λ s. none) pool any_ad (codes "TRUE"))
    × (query_raw listed (λ s. none) true (set_col startd_pvt_ad [] pool) any_ad (codes "TRUE")
        ≡ query_raw listed (λ s. none) true pool any_ad (codes "TRUE"))
    × (query_raw_project listed
          (λ s. none)
          true
          (set_col startd_pvt_ad [] pool)
          any_ad
          (codes "TRUE")
          []
        ≡ query_raw_project listed (λ s. none) true pool any_ad (codes "TRUE") [])
query-any_private_example = query-any_private listed (λ s. none) pool [] (codes "TRUE") [] true

expire-view_example :
    view listed (expire evaluator listed (pos 1001) pool).1 startd_ad slot_key
    ≡ without listed (is_stale evaluator (pos 1001) (pos 900)) (view listed pool startd_ad slot_key)
unfolding set_col
expire-view_example =
    expire-view listed evaluator listed-IsCollection (pos 1001) startd_ad (kept slot) slot_key pool
      refl refl slot-Keyed

-- The private ad is far older than its lifetime, and stays.
expire-private_kept_example :
    view listed (expire evaluator listed (pos 100000) pool).1 startd_pvt_ad slot_key
    ≡ view listed pool startd_pvt_ad slot_key
unfolding set_col visible
expire-private_kept_example =
    expire-private_kept listed evaluator listed-IsCollection (pos 100000) (kept claim) slot_key pool
      refl (claim-other_key, tt)

remove-matching_example :
    view listed (remove evaluator listed startd_ad (some in_slot) none pool).1 startd_ad slot_key
    ≡ without listed in_slot (view listed pool startd_ad slot_key)
unfolding set_col
remove-matching_example =
    remove-matching listed evaluator listed-IsCollection startd_ad in_slot none (kept slot) pool
      slot_key refl slot-Keyed

remove-private_example :
    (view listed
        (remove evaluator listed startd_ad (some in_slot) none pool).1
        startd_pvt_ad
        slot_key
      ≡ (if passes listed in_slot (view listed pool startd_ad slot_key)
          then none
          else view listed pool startd_pvt_ad slot_key))
    × (view listed
          (remove evaluator listed startd_ad none (some slot) pool).1
          startd_pvt_ad
          slot_key
        ≡ (if text_eq slot_key slot_key then none else view listed pool startd_pvt_ad slot_key))
unfolding set_col hash_key lookup to_lower parse_int format_int
remove-private_example =
    remove-private listed evaluator listed-IsCollection in_slot none slot slot_key (kept slot)
      (kept claim) pool slot_key refl refl slot-Keyed refl

apply-result_example :
    (Refusal listed evaluator insert parse_old (parsed startd_ad slot) pool not_a_table
      × IsRefused listed evaluator insert parse_old
          (pos 5)
          (parsed startd_ad slot)
          pool
          not_a_table)
    ⊎ ((Refusal listed evaluator insert parse_old (parsed startd_ad slot) pool no_key
          × IsRefused listed evaluator insert parse_old (pos 5) (parsed startd_ad slot) pool no_key)
        ⊎ Reaches listed evaluator insert parse_old (pos 5) (parsed startd_ad slot) pool)
apply-result_example =
    apply-result listed evaluator insert parse_old (pos 5) (parsed startd_ad slot) pool

get-update_example :
    get listed evaluator startd_ad slot
      (update listed evaluator insert (pos 5) startd_ad slot pool).1
    ≡ some (insert attr_last_heard_from (pos 5) slot)
unfolding update hash_key lookup set_col to_lower
get-update_example =
    get-update listed evaluator insert parse_old listed-IsCollection (pos 5) startd_ad slot pool
      refl
