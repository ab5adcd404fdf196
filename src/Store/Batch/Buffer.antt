-- ===== src/Store/Batch/Buffer.antt =====
-- `PendingUpdate`, its key, and the map of the updates that wait.
use golang_collector.Base.{
  suc, ◌≡◌, refl, ◌↔◌, inl, inr, Bool, true, ◌&&◌, ◌≤◌, Option, none, some, List, [], ◌∷◌, is_some,
  length, Bool-cases, if◌then◌else◌, arith,
}
use golang_collector.Base.Text.{Text, text_eq, text_eq_iff}
use golang_collector.Store.AdType.{
  AdType, startd_ad, startd_pvt_ad, same_table, same_table_sound, same_table_refl,
}
use golang_collector.Store.HashKey.{hash_key_from_text}

pub record PendingUpdate : Type 0 where
  pub type : AdType
  pub text : Text
  pub pvt_text : Text
  pub pvt : Bool

abbrev pub DedupKey : Type 0
DedupKey = AdType × Text

abbrev keyed : AdType → Option Text → Option DedupKey
keyed t none = none
keyed t (some k) = some (t, k)

-- `none` is the second result `false`.
unfoldable pub dedup_key : PendingUpdate → Option DedupKey
dedup_key p =
    if p.pvt
    then keyed startd_pvt_ad (hash_key_from_text startd_ad p.text)
    else keyed p.type (hash_key_from_text p.type p.text)

unfoldable pub key_eq : DedupKey → DedupKey → Bool
key_eq (t, k) (u, l) = same_table t u && text_eq k l

pub key_eq_iff : (a b : DedupKey) → (key_eq a b ≡ true) ↔ (a ≡ b)
unfolding key_eq
key_eq_iff (t, k) (u, l) = ground (arith, same_table_sound t u, same_table_refl t, text_eq_iff k l)

-- The Go map from keys to updates; the list is the order in which the map is walked.
abbrev pub Buf : Type 0
Buf = List (DedupKey × PendingUpdate)

unfoldable pub lookup : Buf → DedupKey → Option PendingUpdate
lookup [] key = none
lookup ((k, p) ∷ rest) key = if key_eq k key then some p else lookup rest key

unfoldable pub insert : DedupKey → PendingUpdate → Buf → Buf
insert key p [] = (key, p) ∷ []
insert key p ((k, q) ∷ rest) =
    let more = insert key p rest in if key_eq k key then (k, p) ∷ rest else (k, q) ∷ more

-- Updates that were not applied go back, but for a key that has a newer one by now.
unfoldable pub requeue : Buf → Buf → Buf
unfolding lookup insert
requeue buf [] = buf
requeue buf ((k, p) ∷ rest) = requeue (if is_some (lookup buf k) then buf else insert k p buf) rest

pub lookup-insert :
    (k j : DedupKey) (p : PendingUpdate) (buf : Buf)
    → lookup (insert k p buf) j ≡ (if key_eq k j then some p else lookup buf j)
unfolding lookup insert
lookup-insert k j p [] = refl
lookup-insert k j p ((i, q) ∷ rest) =
    ground (arith, key_eq_iff k j, key_eq_iff i k, key_eq_iff i j, lookup-insert k j p rest)

abbrev pub or_else : Option PendingUpdate → Option PendingUpdate → Option PendingUpdate
or_else none b = b
or_else (some p) b = some p

-- After it a key has the update that it had before, or else the one that went back.
pub lookup-requeue :
    (j : DedupKey) (rest buf : Buf)
    → lookup (requeue buf rest) j ≡ or_else (lookup buf j) (lookup rest j)
unfolding requeue lookup
lookup-requeue j [] buf = ground arith
lookup-requeue j ((k, p) ∷ rest) buf = elim (Bool-cases (is_some (lookup buf k))) [
  | inl h ↦ ground (arith, key_eq_iff k j, lookup-requeue j rest buf)
  | inr h ↦
      ground
        (arith, key_eq_iff k j, lookup-requeue j rest (insert k p buf), lookup-insert k j p buf)
]

pub length-insert-le :
    (k : DedupKey) (p : PendingUpdate) (buf : Buf) → length (insert k p buf) ≤ suc (length buf)
unfolding insert
length-insert-le k p [] = omega arith
length-insert-le k p ((j, q) ∷ rest) = ground (arith, length-insert-le k p rest)
