-- ===== src/Cycle/Share/Insertion.antt =====
-- A sort by insertion, as an instance of what is documented of sort.SliceStable.
use golang_collector.Base.{
  ◌≡◌, inl, inr, refl, Bool, true, false, List, [], ◌∷◌, keep, length, if◌then◌else◌, Bool-cases,
  arith,
}
use golang_collector.Matchmaker.Floats.{Floats, IsOrdered}
use golang_collector.Cycle.Share.{SubState, Sort}
use golang_collector.Cycle.Share.Order.{IsWeakOrder, InOrder, IsSort}

module _ (f : Floats) {X : Type 0} where
  unfoldable pub insert :
      (SubState f X → SubState f X → Bool)
      → SubState f X
      → List (SubState f X)
      → List (SubState f X)
  insert less a [] = a ∷ []
  insert less a (b ∷ bs) = let rest = insert less a bs in if less b a then b ∷ rest else a ∷ b ∷ bs

  unfoldable pub insertion_sort : Sort f X
  unfolding insert
  insertion_sort less [] = []
  insertion_sort less (a ∷ rest) = insert less a (insertion_sort less rest)

  module _ (ordered : IsOrdered f) where
    module _ (less : SubState f X → SubState f X → Bool) where
      abbrev Sorted : List (SubState f X) → Type 0
      Sorted = InOrder f ordered (λ a b. less b a ≡ false)

      keep-insert :
          (p : SubState f X → Bool) (a : SubState f X) (bs : List (SubState f X))
          → length (keep p (insert less a bs)) ≡ length (keep p (a ∷ bs))
      unfolding insert
      keep-insert p a [] = refl
      keep-insert p a (b ∷ bs) = ground (arith, keep-insert p a bs)

      keep-insertion_sort :
          (p : SubState f X → Bool) (subs : List (SubState f X))
          → length (keep p (insertion_sort less subs)) ≡ length (keep p subs)
      unfolding insertion_sort
      keep-insertion_sort p [] = refl
      keep-insertion_sort p (a ∷ rest) =
          ground (arith, keep-insert p a (insertion_sort less rest), keep-insertion_sort p rest)

      module _ (weak : IsWeakOrder less) where
        -- In front of an ordered list, and of what an insertion makes of it.
        insert-Sorted_after :
            (b a : SubState f X) (bs : List (SubState f X))
            → less b a ≡ true
            → Sorted (b ∷ bs)
            → Sorted (b ∷ insert less a bs)
        unfolding insert
        insert-Sorted_after b a [] g h = (weak.asym b a g, tt)
        insert-Sorted_after b a (c ∷ bs) g h = elim (Bool-cases (less c a)) [
          | inl k ↦ rw k (h.0, insert-Sorted_after c a bs k h.1)
          | inr k ↦ rw k (weak.asym b a g, (k, h.1))
        ]

        insert-Sorted :
            (a : SubState f X) (bs : List (SubState f X)) → Sorted bs → Sorted (insert less a bs)
        unfolding insert
        insert-Sorted a [] h = tt
        insert-Sorted a (b ∷ bs) h = elim (Bool-cases (less b a)) [
          | inl g ↦ rw g (insert-Sorted_after b a bs g h)
          | inr g ↦ rw g (g, h)
        ]

        insertion_sort-Sorted : (subs : List (SubState f X)) → Sorted (insertion_sort less subs)
        unfolding insertion_sort
        insertion_sort-Sorted [] = tt
        insertion_sort-Sorted (a ∷ rest) =
            insert-Sorted a (insertion_sort less rest) (insertion_sort-Sorted rest)

    pub insertion_sort-IsSort : IsSort f ordered insertion_sort
    insertion_sort-IsSort = record {
      sorts = λ less subs weak. insertion_sort-Sorted less weak subs;
      keeps = λ less subs p. keep-insertion_sort less p subs;
    }
