-- ===== src/Store/HashKey/Tests.antt =====
-- Runs of store/hashkey.go at single inputs.
use golang_collector.Base.{◌≡◌, refl, ◌↔◌, some, ◌∷◌, [], ◌++◌}
use golang_collector.Base.Text.{Text, codes}
use golang_collector.Store.AdType.{startd_ad, startd_pvt_ad, schedd_ad, submitter_ad}
use golang_collector.Store.HashKey.{
  Attrs, Get, lookup, hash_key_from_text, key_fields, attr_name, usable_name, attr_slot_id,
  attr_my_address, attr_startd_ip_addr, attr_schedd_ip_addr, attr_schedd_name, first_of,
}
use golang_collector.Store.HashKey.Identity.{slot_of, key_fields_iff-startd, key_fields_iff-schedd}

abbrev slot_text : Text
slot_text = codes "name = \"slot1@h\"\nSlotId=1\n Name=\"x\"\nMyAddress = \"<a>\"\n"

hash_key_from_text-slot :
    hash_key_from_text startd_ad slot_text ≡ some (codes "slot1@h:1" ++ 0 ∷ codes "<a>")
unfolding hash_key_from_text
hash_key_from_text-slot = refl

abbrev ads : Attrs → Get
ads attrs name = lookup attrs name

abbrev joined : Attrs
joined =
    (attr_name, codes "ab") ∷ (attr_schedd_name, codes "c") ∷ (codes "MyAddress", codes "<a>") ∷ []

abbrev shifted : Attrs
shifted =
    (attr_name, codes "a") ∷ (attr_schedd_name, codes "bc") ∷ (codes "MyAddress", codes "<a>") ∷ []

abbrev slot_one : Attrs
slot_one = (attr_name, codes "h") ∷ (attr_slot_id, codes "1") ∷ (attr_my_address, codes "<a>") ∷ []

abbrev slot_two : Attrs
slot_two = (attr_name, codes "h") ∷ (attr_slot_id, codes "2") ∷ (attr_my_address, codes "<a>") ∷ []

key_fields_iff-startd_example :
    ((key_fields startd_ad (ads slot_one) ≡ key_fields startd_ad (ads slot_two)) ↔ (
      (codes "h" ≡ codes "h")
      × (slot_of (ads slot_one attr_slot_id) ≡ slot_of (ads slot_two attr_slot_id))
      × (first_of (ads slot_one) (attr_my_address ∷ attr_startd_ip_addr ∷ [])
          ≡ first_of (ads slot_two) (attr_my_address ∷ attr_startd_ip_addr ∷ []))))
    × (key_fields startd_pvt_ad (ads slot_one) ≡ key_fields startd_ad (ads slot_one))
unfolding usable_name lookup
key_fields_iff-startd_example =
    key_fields_iff-startd (ads slot_one) (ads slot_two) (codes "h") (codes "h") refl refl refl refl
      refl refl refl refl

key_fields_iff-schedd_example :
    ((key_fields submitter_ad (ads joined) ≡ key_fields submitter_ad (ads shifted)) ↔ (
      (codes "ab" ++ codes "c" ≡ codes "a" ++ codes "bc")
      × (first_of (ads joined) (attr_my_address ∷ attr_schedd_ip_addr ∷ [])
          ≡ first_of (ads shifted) (attr_my_address ∷ attr_schedd_ip_addr ∷ []))))
    × (key_fields schedd_ad (ads joined) ≡ key_fields submitter_ad (ads joined))
unfolding usable_name lookup
key_fields_iff-schedd_example =
    key_fields_iff-schedd (ads joined) (ads shifted) (codes "ab") (codes "a") (codes "c")
      (codes "bc") refl refl refl refl refl refl
