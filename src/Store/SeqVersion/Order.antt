-- ===== src/Store/SeqVersion/Order.antt =====
-- `newerThan` is a strict order.
use golang_collector.Base.{◌≡◌, true, false, ◌⊎◌, arith}
use golang_collector.Base.Int.{ℤ, pos, negsuc, ltb_int, eq_int}
use golang_collector.Store.SeqVersion.{AdVersion, newer_than}

pub eq_int_sound : (a b : ℤ) → eq_int a b ≡ true → a ≡ b
eq_int_sound (pos a) (pos b) h = ground arith
eq_int_sound (negsuc a) (negsuc b) h = ground arith
eq_int_sound _ _ h = cc

pub ltb_int_irrefl : (a : ℤ) → ltb_int a a ≡ false
ltb_int_irrefl (pos a) = ground arith
ltb_int_irrefl (negsuc a) = ground arith

pub eq_int_refl : (a : ℤ) → eq_int a a ≡ true
eq_int_refl (pos a) = ground arith
eq_int_refl (negsuc a) = ground arith

pub ltb_int_trans : (a b c : ℤ) → ltb_int a b ≡ true → ltb_int b c ≡ true → ltb_int a c ≡ true
ltb_int_trans (pos a) (pos b) (pos c) h k = ground arith
ltb_int_trans _ _ _ h k = ground arith

pub ltb_int_total : (a b : ℤ) → eq_int a b ≡ false → (ltb_int a b ≡ true) ⊎ (ltb_int b a ≡ true)
ltb_int_total (pos a) (pos b) h = ground arith
ltb_int_total _ _ h = ground arith

pub newer_than_irrefl : (a : AdVersion) → newer_than a a ≡ false
unfolding newer_than
newer_than_irrefl a = ground (arith, eq_int_refl a.start_time, ltb_int_irrefl a.seq_no)

-- If `a` is newer than `b`, and `b` than `c`, then `a` is newer than `c`, also where a version is
-- not usable.
pub newer_than_trans :
    (a b c : AdVersion) → newer_than a b ≡ true → newer_than b c ≡ true → newer_than a c ≡ true
unfolding newer_than
newer_than_trans a b c h k = ground (
  arith,
  eq_int_refl a.start_time,
  eq_int_refl b.start_time,
  eq_int_refl c.start_time,
  eq_int_sound a.start_time b.start_time,
  eq_int_sound b.start_time c.start_time,
  eq_int_sound a.start_time c.start_time,
  ltb_int_trans c.start_time b.start_time a.start_time,
  ltb_int_trans c.seq_no b.seq_no a.seq_no,
  ltb_int_irrefl b.start_time,
  ltb_int_trans b.start_time c.start_time b.start_time,
)
