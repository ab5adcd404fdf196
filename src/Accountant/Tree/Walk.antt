-- ===== src/Accountant/Tree/Walk.antt =====
-- negotiator/accountant/grouptree.go: the walks over the tree of groups.
use golang_collector.Base.{
  ℕ, zero, suc, ◌+◌, ◌<◌, ◌≡◌, ◌⊎◌, inl, inr, refl, ap, Option, none, some, List, [], ◌∷◌, ◌++◌,
  length, take, Option-cases, arith,
}
use golang_collector.Base.Text.{Text}
use golang_collector.Accountant.Tree.{
  GroupNode, Children, node, nil, cons, children, to_list, find_child, breadth_first_from,
  breadth_first, descend,
}

-- The number of groups in a tree.
unfoldable mutual
  pub size : {R : Type 0} → GroupNode R → ℕ
  size (node g cs) = suc (size_all cs)

  pub size_all : {R : Type 0} → Children R → ℕ
  size_all nil = 0
  size_all (cons n cs) = size n + size_all cs

module _ {R : Type 0} where
  abbrev total : List (GroupNode R) → ℕ
  total [] = 0
  total (n ∷ ns) = size n + total ns

  total-append : (ns ms : List (GroupNode R)) → total (ns ++ ms) ≡ total ns + total ms
  total-append [] ms = omega arith
  total-append (n ∷ ns) ms = omega (arith, total-append ns ms)

  total-to_list : (cs : Children R) → total (to_list cs) ≡ size_all cs
  unfolding size_all
  total-to_list nil = refl
  total-to_list (cons n cs) = omega (arith, total-to_list cs)

  total-children : (n : GroupNode R) → suc (total (to_list (children n))) ≡ size n
  unfolding size
  total-children (node g cs) = omega (arith, total-to_list cs)

  breadth_first_from-total :
      (fuel : ℕ) (queue : List (GroupNode R))
      → total queue < fuel
      → (out : List (GroupNode R)) × (breadth_first_from fuel queue ≡ some out)
        × (length out ≡ total queue)
  unfolding breadth_first_from
  breadth_first_from-total zero queue h = absurd (omega (arith, h))
  breadth_first_from-total (suc fuel) [] h = ([], refl, refl)
  breadth_first_from-total (suc fuel) (n ∷ queue) h =
      let (out, e, l) =
        breadth_first_from-total fuel (queue ++ to_list (children n))
          (omega (arith, h, total-append queue (to_list (children n)), total-children n)) in
      (
        n ∷ out,
        rw (e, breadth_first_from) refl,
        omega (arith, l, total-append queue (to_list (children n)), total-children n),
      )

  -- The breadth-first walk ends, with more fuel than groups, and visits as many nodes as the tree has.
  pub length-breadth_first :
      (fuel : ℕ) (root : GroupNode R)
      → size root < fuel
      → (out : List (GroupNode R)) × (breadth_first fuel root ≡ some out) × (length out ≡ size root)
  unfolding breadth_first
  length-breadth_first fuel root h =
      let (out, e, l) = breadth_first_from-total fuel (root ∷ []) (omega (arith, h)) in
      (out, e, omega (arith, l))

  -- The node at the end of a whole path.
  unfoldable pub resolve : GroupNode R → List Text → Option (GroupNode R)
  resolve group [] = some group
  resolve group (comp ∷ comps) = elim (find_child comp group) [
    | none ↦ none
    | some child ↦ resolve child comps
  ]

  resolve-deeper :
      (comp : Text) (comps : List Text) (group child : GroupNode R) (n : ℕ)
      → find_child comp group ≡ some child
      → (take n comps ≡ comps) ⊎ (resolve child (take (suc n) comps) ≡ none)
      → (take (suc n) (comp ∷ comps) ≡ comp ∷ comps)
        ⊎ (resolve group (take (suc (suc n)) (comp ∷ comps)) ≡ none)
  unfolding resolve
  resolve-deeper comp comps group child n h (inl e) = inl (ap (◌∷◌ comp) e)
  resolve-deeper comp comps group child n h (inr e) = inr (rw (h, resolve) e)

  -- The group of a submitter's path is the deepest one that its components name: a prefix of the path
  -- leads to it, and that prefix is the whole path or one more component leads nowhere.
  pub descend-resolve :
      (comps : List Text) (group : GroupNode R)
      → (n : ℕ) × (resolve group (take n comps) ≡ some (descend group comps))
        × ((take n comps ≡ comps) ⊎ (resolve group (take (suc n) comps) ≡ none))
  unfolding resolve descend
  descend-resolve [] group = (0, refl, inl refl)
  descend-resolve (comp ∷ comps) group = elim (Option-cases (find_child comp group)) [
    | inl h ↦ (0, rw (h, descend) refl, inr (rw (h, resolve) refl))
    | inr (child, h) ↦
        let (n, p, q) = descend-resolve comps child in
        (suc n, rw (h, resolve, descend) p, resolve-deeper comp comps group child n h q)
  ]
