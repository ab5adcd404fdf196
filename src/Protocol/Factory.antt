-- ===== src/Protocol/Factory.antt =====
-- negotiator/protocol/cache.go: the cache of warm connections. A connection is known by a number;
-- the factory keeps which of them have been closed.
pub mod Cache
use golang_collector.Base.{
  ℕ, ◌≡◌, ◌↔◌, refl, Bool, true, false, not, ◌&&◌, ◌||◌, ◌==◌, Option, none, some, List, [], ◌∷◌,
  ◌++◌, map, if◌then◌else◌, arith,
}
use golang_collector.Base.Text.{Text, text_eq, text_eq_iff}

pub record CacheKey : Type 0 where
  pub addr : Text
  pub tag : Text

unfoldable pub key_eq : CacheKey → CacheKey → Bool
key_eq a b = text_eq a.addr b.addr && text_eq a.tag b.tag

pub record Factory : Type 0 where
  pub warm : List (CacheKey × ℕ)
  pub closed : List ℕ

unfoldable pub lookup : List (CacheKey × ℕ) → CacheKey → Option ℕ
lookup [] key = none
lookup ((k, c) ∷ rest) key = if key_eq k key then some c else lookup rest key

unfoldable pub delete : List (CacheKey × ℕ) → CacheKey → List (CacheKey × ℕ)
delete [] key = []
delete ((k, c) ∷ rest) key =
    let others = delete rest key in if key_eq k key then others else (k, c) ∷ others

unfoldable pub take : Factory → CacheKey → Option ℕ × Factory
take f key = elim (lookup f.warm key) [
  | none ↦ (none, f)
  | some c ↦ (some c, record f { warm = delete f.warm key })
]

unfoldable pub close : Factory → ℕ → Factory
close f c = record f { closed = c ∷ f.closed }

-- What `put` closes: another connection that is cached under the key.
abbrev pub replaced : Option ℕ → ℕ → List ℕ
replaced none wc = []
replaced (some old) wc = if old == wc then [] else old ∷ []

unfoldable pub put : Factory → CacheKey → Option ℕ → Factory
put f key none = f
put f key (some wc) = record {
  warm = (key, wc) ∷ delete f.warm key;
  closed = replaced (lookup f.warm key) wc ++ f.closed;
}

abbrev pub close_option : Option ℕ → List ℕ
close_option none = []
close_option (some c) = c ∷ []

unfoldable pub evict : Factory → CacheKey → Factory
evict f key = record {
  warm = delete f.warm key;
  closed = close_option (lookup f.warm key) ++ f.closed;
}

unfoldable pub close_all : Factory → Factory
close_all f = record { warm = []; closed = map (λ (p : CacheKey × ℕ). p.1) f.warm ++ f.closed }
