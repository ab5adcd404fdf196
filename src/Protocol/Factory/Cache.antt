-- ===== src/Protocol/Factory/Cache.antt =====
-- The cache as a map that holds each connection once.
use golang_collector.Base.{
  ℕ, suc, ◌+◌, ◌≡◌, refl, true, ◌==◌, none, some, List, [], ◌∷◌, ◌++◌, Bool-cases, Option-cases,
  inl, inr, if◌then◌else◌, arith,
}
use golang_collector.Base.Text.{text_eq_iff}
use golang_collector.Protocol.Factory.{
  CacheKey, key_eq, Factory, lookup, delete, take, put, evict, close_option,
}

-- How often a connection occurs.
unfoldable pub count : ℕ → List ℕ → ℕ
count c [] = 0
count c (d ∷ ds) = let rest = count c ds in if d == c then suc rest else rest

pub count-append : (c : ℕ) (xs ys : List ℕ) → count c (xs ++ ys) ≡ count c xs + count c ys
unfolding count
count-append c [] ys = omega arith
count-append c (x ∷ xs) ys = ground (arith, count-append c xs ys)

unfoldable pub in_warm : ℕ → List (CacheKey × ℕ) → ℕ
in_warm c [] = 0
in_warm c ((k, d) ∷ rest) = let others = in_warm c rest in if d == c then suc others else others

-- No key has two connections.
abbrev pub IsUnique : List (CacheKey × ℕ) → Type 0
IsUnique [] = Unit
IsUnique ((k, c) ∷ rest) = (lookup rest k ≡ none) × IsUnique rest

key_eq_sound : (a b : CacheKey) → key_eq a b ≡ true → a ≡ b
unfolding key_eq
key_eq_sound a b h = ground (arith, text_eq_iff a.addr b.addr, text_eq_iff a.tag b.tag)

pub lookup-delete : (w : List (CacheKey × ℕ)) (key : CacheKey) → lookup (delete w key) key ≡ none
unfolding lookup delete
lookup-delete [] key = refl
lookup-delete ((k, c) ∷ w) key = ground (arith, lookup-delete w key)

lookup-delete-none :
    (w : List (CacheKey × ℕ)) (key other : CacheKey)
    → lookup w other ≡ none
    → lookup (delete w key) other ≡ none
unfolding lookup delete
lookup-delete-none [] key other h = refl
lookup-delete-none ((k, c) ∷ w) key other h = ground (arith, lookup-delete-none w key other)

pub delete-IsUnique :
    (w : List (CacheKey × ℕ)) (key : CacheKey) → IsUnique w → IsUnique (delete w key)
unfolding delete
delete-IsUnique [] key h = tt
delete-IsUnique ((k, c) ∷ w) key h = elim (Bool-cases (key_eq k key)) [
  | inl e ↦ rw (e, delete) (delete-IsUnique w key h.1)
  | inr e ↦ rw (e, delete) (lookup-delete-none w key k h.0, delete-IsUnique w key h.1)
]

delete-absent : (w : List (CacheKey × ℕ)) (key : CacheKey) → lookup w key ≡ none → delete w key ≡ w
unfolding lookup delete
delete-absent [] key h = refl
delete-absent ((k, c) ∷ w) key h = ground (arith, delete-absent w key)

-- Deleting a key takes the connection away that was cached under it, and nothing else.
pub in_warm-delete :
    (c : ℕ) (w : List (CacheKey × ℕ)) (key : CacheKey)
    → IsUnique w
    → in_warm c w ≡ in_warm c (delete w key) + count c (close_option (lookup w key))
unfolding in_warm delete lookup count
in_warm-delete c [] key h = refl
in_warm-delete c ((k, d) ∷ w) key h = elim (Bool-cases (key_eq k key)) [
  | inl e ↦
      let absent = rw (key_eq_sound k key e) at h.0 in
      ground (arith, in_warm-delete c w key h.1, delete-absent w key absent, absent, e)
  | inr e ↦ ground (arith, in_warm-delete c w key h.1, e)
]

-- The cache and the closed connections together: how often each has a connection.
unfoldable pub holds : ℕ → Factory → ℕ
holds c f = in_warm c f.warm + count c f.closed

pub take-holds :
    (c : ℕ) (f : Factory) (key : CacheKey)
    → IsUnique f.warm
    → holds c f ≡ holds c (take f key).1 + count c (close_option (take f key).0)
unfolding holds take count
take-holds c f key u = elim (Option-cases (lookup f.warm key)) [
  | inl e ↦ ground (arith, e)
  | inr (d, e) ↦ ground (arith, e, in_warm-delete c f.warm key u)
]

-- What is put into the cache is in it from then on, and what it replaces is closed, unless it is
-- the same.
pub put-holds :
    (c d : ℕ) (f : Factory) (key : CacheKey)
    → IsUnique f.warm
    → in_warm d f.warm ≡ 0
    → holds c (put f key (some d)) ≡ holds c f + count c (d ∷ [])
unfolding holds put count in_warm
put-holds c d f key u h = elim (Option-cases (lookup f.warm key)) [
  | inl e ↦ ground (arith, e, in_warm-delete c f.warm key u)
  | inr (old, e) ↦ ground (arith, e, in_warm-delete c f.warm key u, in_warm-delete d f.warm key u)
]

pub evict-holds :
    (c : ℕ) (f : Factory) (key : CacheKey) → IsUnique f.warm → holds c (evict f key) ≡ holds c f
unfolding holds evict count
evict-holds c f key u = ground (
  arith,
  in_warm-delete c f.warm key u,
  count-append c (close_option (lookup f.warm key)) f.closed,
)
