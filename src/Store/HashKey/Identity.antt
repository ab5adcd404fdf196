-- ===== src/Store/HashKey/Identity.antt =====
-- The keys of startd, schedd and submitter ads as encodings of what identifies an ad.
use golang_collector.Base.{
  ◌≡◌, ◌∙◌, refl, sym, ◌↔◌, Bool, false, Option, none, some, [], ◌∷◌, ◌++◌, arith, any, ◌==◌, ℕ,
  if◌then◌else◌,
}
use golang_collector.Base.Text.{Text, is_empty}
use golang_collector.Store.AdType.{startd_ad, startd_pvt_ad, schedd_ad, submitter_ad}
use golang_collector.Store.HashKey.{
  Get, key_fields, key_name, key_addr, usable_name, attr_slot_id, attr_schedd_name, attr_my_address,
  attr_startd_ip_addr, attr_schedd_ip_addr, first_of,
}

abbrev pub has : ℕ → Text → Bool
has c = any (λ d. d == c)

-- Two encoded pairs are equal only if the pairs are, where no name holds the separator.
encode-injective :
    (n m a b : Text)
    → has 0 n ≡ false
    → has 0 m ≡ false
    → n ++ 0 ∷ a ≡ m ++ 0 ∷ b
    → (n ≡ m) × (a ≡ b)
encode-injective [] [] a b h k e = ground arith
encode-injective [] (d ∷ m) a b h k e = ground arith
encode-injective (c ∷ n) [] a b h k e = ground arith
encode-injective (c ∷ n) (d ∷ m) a b h k e = ground (arith, encode-injective n m a b)

has-append : (c : ℕ) (s t : Text) → has c s ≡ false → has c t ≡ false → has c (s ++ t) ≡ false
has-append c [] t h k = k
has-append c (d ∷ s) t h k = ground (arith, has-append c s t)

-- The number of a slot, if it has one that is not empty.
abbrev pub slot_of : Option Text → Option Text
slot_of none = none
slot_of (some v) = if is_empty v then none else some v

-- No slot, or one without a NUL.
abbrev pub IsPlain : Option Text → Type 0
IsPlain none = Unit
IsPlain (some v) = has 0 v ≡ false

abbrev with_slot : Text → Option Text → Text
with_slot name none = name
with_slot name (some slot) = name ++ b':' ∷ slot

with_slot-injective :
    (n m : Text) (a b : Option Text)
    → has b':' n ≡ false
    → has b':' m ≡ false
    → with_slot n a ≡ with_slot m b
    → (n ≡ m) × (a ≡ b)
with_slot-injective [] [] none none h k e = (refl, refl)
with_slot-injective [] [] none (some t) h k e = absurd (ground (arith, e))
with_slot-injective [] [] (some s) none h k e = absurd (ground (arith, e))
with_slot-injective [] [] (some s) (some t) h k e = ground (arith, e)
with_slot-injective [] (d ∷ m) none none h k e = absurd (ground (arith, e))
with_slot-injective [] (d ∷ m) none (some t) h k e = absurd (ground (arith, e))
with_slot-injective [] (d ∷ m) (some s) none h k e = absurd (ground (arith, e, k))
with_slot-injective [] (d ∷ m) (some s) (some t) h k e = absurd (ground (arith, e, k))
with_slot-injective (c ∷ n) [] none none h k e = absurd (ground (arith, e))
with_slot-injective (c ∷ n) [] (some s) none h k e = absurd (ground (arith, e))
with_slot-injective (c ∷ n) [] none (some t) h k e = absurd (ground (arith, e, h))
with_slot-injective (c ∷ n) [] (some s) (some t) h k e = absurd (ground (arith, e, h))
with_slot-injective (c ∷ n) (d ∷ m) none none h k e =
    ground (arith, e, with_slot-injective n m none none)
with_slot-injective (c ∷ n) (d ∷ m) none (some t) h k e =
    ground (arith, e, with_slot-injective n m none (some t))
with_slot-injective (c ∷ n) (d ∷ m) (some s) none h k e =
    ground (arith, e, with_slot-injective n m (some s) none)
with_slot-injective (c ∷ n) (d ∷ m) (some s) (some t) h k e =
    ground (arith, e, with_slot-injective n m (some s) (some t))

has-with_slot :
    (n : Text) (a : Option Text) → has 0 n ≡ false → IsPlain a → has 0 (with_slot n a) ≡ false
has-with_slot n none h k = h
has-with_slot n (some s) h k = has-append 0 n (b':' ∷ s) h k

-- What two startd ads are told apart by besides their names: the slot, and the address.
abbrev startd_addr : Get → Text
startd_addr get = first_of get (attr_my_address ∷ attr_startd_ip_addr ∷ [])

startd_key :
    (get : Get) (n : Text)
    → usable_name get ≡ some n
    → key_fields startd_ad get
      ≡ some (with_slot n (slot_of (get attr_slot_id)) ++ 0 ∷ startd_addr get)
unfolding key_fields key_name key_addr
startd_key get n h = ground (arith, h)

some-injective : (s t : Text) → some s ≡ some t → s ≡ t
some-injective s t e = ground (arith, e)

-- Two startd ads have the same key exactly when their names, their slots and their addresses are the
-- same, where no name holds a colon or a NUL and no slot a NUL; and a private startd ad has the key
-- that a public one with the same attributes has.
pub key_fields_iff-startd :
    (get other : Get) (n m : Text)
    → usable_name get ≡ some n
    → usable_name other ≡ some m
    → has b':' n ≡ false
    → has b':' m ≡ false
    → has 0 n ≡ false
    → has 0 m ≡ false
    → IsPlain (slot_of (get attr_slot_id))
    → IsPlain (slot_of (other attr_slot_id))
    → ((key_fields startd_ad get ≡ key_fields startd_ad other) ↔ (
        (n ≡ m)
        × (slot_of (get attr_slot_id) ≡ slot_of (other attr_slot_id))
        × (first_of get (attr_my_address ∷ attr_startd_ip_addr ∷ [])
            ≡ first_of other (attr_my_address ∷ attr_startd_ip_addr ∷ []))))
      × (key_fields startd_pvt_ad get ≡ key_fields startd_ad get)
unfolding key_fields key_name key_addr
key_fields_iff-startd get other n m h k p q r s u v =
    let a = slot_of (get attr_slot_id) in
    let b = slot_of (other attr_slot_id) in
    (
      (
        λ e.
            let (x, y) =
              encode-injective (with_slot n a) (with_slot m b) (startd_addr get) (startd_addr other)
                (has-with_slot n a r u) (has-with_slot m b s v)
                (some-injective _ _ (sym (startd_key get n h) ∙ e ∙ startd_key other m k)) in
            let (i, j) = with_slot-injective n m a b p q x in (i, j, y),
        λ e. startd_key get n h ∙ ground (arith, e.0, e.1, e.2) ∙ sym (startd_key other m k),
      ),
      refl,
    )

abbrev schedd_addr : Get → Text
schedd_addr get = first_of get (attr_my_address ∷ attr_schedd_ip_addr ∷ [])

-- Two submitter ads have the same key exactly when their names, each with the name of its schedd
-- directly after it, read the same, and the addresses are the same, where neither text holds a NUL;
-- the same holds of schedd ads, which have the keys that submitter ads with the same attributes have.
pub key_fields_iff-schedd :
    (get other : Get) (n m c d : Text)
    → usable_name get ≡ some n
    → usable_name other ≡ some m
    → get attr_schedd_name ≡ some c
    → other attr_schedd_name ≡ some d
    → has 0 (n ++ c) ≡ false
    → has 0 (m ++ d) ≡ false
    → ((key_fields submitter_ad get ≡ key_fields submitter_ad other) ↔ (
        (n ++ c ≡ m ++ d)
        × (first_of get (attr_my_address ∷ attr_schedd_ip_addr ∷ [])
            ≡ first_of other (attr_my_address ∷ attr_schedd_ip_addr ∷ []))))
      × (key_fields schedd_ad get ≡ key_fields submitter_ad get)
unfolding key_fields key_name key_addr
key_fields_iff-schedd get other n m c d h k p q r s =
    let x : key_fields submitter_ad get ≡ some ((n ++ c) ++ 0 ∷ schedd_addr get) =
      ground (arith, h, p) in
    let y : key_fields submitter_ad other ≡ some ((m ++ d) ++ 0 ∷ schedd_addr other) =
      ground (arith, k, q) in
    (
      (
        λ e.
            encode-injective (n ++ c) (m ++ d) (schedd_addr get) (schedd_addr other) r s
              (some-injective _ _ (sym x ∙ e ∙ y)),
        λ e. x ∙ ground (arith, e.0, e.1) ∙ sym y,
      ),
      refl,
    )
