-- ===== src/Accountant/Tree/Build/Found.antt =====
-- negotiator/accountant/grouptree.go: a group that is placed in the tree is found there, and those
-- before it still are.
use mathlib.Core.Path.{subst}
use golang_collector.Base.{
  ◌≡◌, ◌∙◌, ◌⊎◌, inl, inr, refl, ap, sym, true, false, Option, none, some, List, [], ◌∷◌,
  if◌then◌else◌, Bool-cases, Option-cases, arith,
}
use golang_collector.Base.Text.{Text, text_eq, text_eq_refl, to_lower}
use golang_collector.Accountant.Tree.{
  GroupInfo, GroupNode, Children, node, nil, cons, info, to_list, last_of, leaf_name,
  parse_group_name, root_group_name, is_named, find_in, find_child,
}
use golang_collector.Accountant.Tree.Walk.{resolve}
use golang_collector.Accountant.Tree.Build.{
  Placement, missing_parent, duplicate, placed, map_placed, add_last, place_in, place,
}

map_placed-cases :
    {A B : Type 0} (g : A → B) (p : Placement A) (b : B)
    → map_placed g p ≡ placed b
    → (a : A) × (p ≡ placed a) × (g a ≡ b)
map_placed-cases g (missing_parent name) b e = absurd (ground (arith, e))
map_placed-cases g duplicate b e = absurd (ground (arith, e))
map_placed-cases g (placed a) b e = (a, refl, ground (arith, e))

module _ {R : Type 0} where
  abbrev pub find_among : Text → Children R → Option (GroupNode R)
  find_among name cs = find_in name (to_list cs)

  find_among-add_last :
      (name : Text) (cs : Children R) (n : GroupNode R)
      → find_among name (add_last cs n) ≡ elim (find_among name cs) [
        | some m ↦ some m
        | none ↦ if is_named name n then some n else none
      ]
  unfolding add_last find_in
  find_among-add_last name nil n = refl
  find_among-add_last name (cons m cs) n = ground (arith, find_among-add_last name cs n)

  -- What replaces a node has its fields, so that its name is the same.
  abbrev Keeps : (GroupNode R → Placement (GroupNode R)) → Type 0
  Keeps f = (n m : GroupNode R) → f n ≡ placed m → info m ≡ info n

  is_named-info :
      (name : Text) (n m : GroupNode R) → info m ≡ info n → is_named name m ≡ is_named name n
  unfolding is_named
  is_named-info name (node g cs) (node h ds) e = ground (arith, e)

  -- One child, `n`, is replaced by `m`, and it is the one of that name.
  pub record IsReplaced (name : Text) (f : GroupNode R → Placement (GroupNode R))
      (cs ds : Children R) : Type 0 where
    pub old : GroupNode R
    pub new : GroupNode R
    pub made : f old ≡ placed new
    pub found : find_among name cs ≡ some old
    pub left : find_among name ds ≡ some new
    pub others :
        (other : Text)
        → (find_among other ds ≡ find_among other cs)
          ⊎ ((find_among other cs ≡ some old) × (find_among other ds ≡ some new))

  IsReplaced-first :
      (name : Text) (f : GroupNode R → Placement (GroupNode R)) (n m : GroupNode R)
      (cs : Children R)
      → Keeps f
      → is_named name n ≡ true
      → f n ≡ placed m
      → IsReplaced name f (cons n cs) (cons m cs)
  unfolding find_in
  IsReplaced-first name f n m cs keeps h e = record {
    old = n;
    new = m;
    made = e;
    found = ground (arith, h);
    left = ground (arith, h, is_named-info name n m (keeps n m e));
    others = λ other. elim (Bool-cases (is_named other n)) [
      | inl g ↦ inr (ground (arith, g), ground (arith, g, is_named-info other n m (keeps n m e)))
      | inr g ↦ inl (ground (arith, g, is_named-info other n m (keeps n m e)))
    ];
  }

  IsReplaced-later :
      (name : Text) (f : GroupNode R → Placement (GroupNode R)) (n : GroupNode R)
      (cs ds : Children R)
      → is_named name n ≡ false
      → IsReplaced name f cs ds
      → IsReplaced name f (cons n cs) (cons n ds)
  unfolding find_in
  IsReplaced-later name f n cs ds h r = record {
    old = r.old;
    new = r.new;
    made = r.made;
    found = ground (arith, h, r.found);
    left = ground (arith, h, r.left);
    others = λ other. elim (Bool-cases (is_named other n)) [
      | inl g ↦ inl (ground (arith, g))
      | inr g ↦ elim (r.others other) [
        | inl p ↦ inl (ground (arith, g, p))
        | inr (p, q) ↦ inr (ground (arith, g, p), ground (arith, g, q))
      ]
    ];
  }

  place_in-IsReplaced :
      (name : Text) (f : GroupNode R → Placement (GroupNode R)) (cs ds : Children R)
      → Keeps f
      → place_in name f cs ≡ placed ds
      → IsReplaced name f cs ds
  unfolding place_in
  place_in-IsReplaced name f nil ds keeps e = absurd (ground (arith, e))
  place_in-IsReplaced name f (cons n cs) ds keeps e = elim (Bool-cases (is_named name n)) [
    | inl h ↦
        let (m, p, q) = map_placed-cases (λ x. cons x cs) (f n) ds (rw (h, place_in) at e) in
        subst (IsReplaced name f (cons n cs)) q (IsReplaced-first name f n m cs keeps h p)
    | inr h ↦
        let (rest, p, q) =
          map_placed-cases (cons n) (place_in name f cs) ds (rw (h, place_in) at e) in
        subst (IsReplaced name f (cons n cs)) q
          (IsReplaced-later name f n cs rest h (place_in-IsReplaced name f cs rest keeps p))
  ]

  -- Placing keeps the fields of the node that it goes below.
  place-Keeps : (g : GroupInfo R) (path : List Text) → Keeps (place g path)
  unfolding place
  place-Keeps g [] n m e = absurd (ground (arith, e))
  place-Keeps g (leaf ∷ []) (node h cs) m e = elim (Option-cases (find_child leaf (node h cs))) [
    | inl k ↦ ground (arith, rw (k, place) at e)
    | inr (n, k) ↦ absurd (ground (arith, rw (k, place) at e))
  ]
  place-Keeps g (comp ∷ next ∷ comps) (node h cs) m e =
      let (ds, p, q) = map_placed-cases (node h) (place_in comp (place g (next ∷ comps)) cs) m e in
      ap info (sym q)

  resolve_step :
      (comp : Text) (comps : List Text) (n k : GroupNode R)
      → find_child comp n ≡ some k
      → resolve n (comp ∷ comps) ≡ resolve k comps
  unfolding resolve
  resolve_step comp comps n k h = ground (arith, h)

  find_child-node :
      (comp : Text) (h : GroupInfo R) (cs : Children R)
      → find_child comp (node h cs) ≡ find_among comp cs
  unfolding find_child
  find_child-node comp h cs = refl

  added_found :
      (leaf : Text) (h : GroupInfo R) (cs : Children R) (n : GroupNode R)
      → find_child leaf (node h cs) ≡ none
      → is_named leaf n ≡ true
      → find_child leaf (node h (add_last cs n)) ≡ some n
  added_found leaf h cs n k l = ground (
    arith,
    find_child-node leaf h cs,
    find_child-node leaf h (add_last cs n),
    find_among-add_last leaf cs n,
    k,
    l,
  )

  placed_leaf :
      (g : GroupInfo R) (leaf : Text) (h : GroupInfo R) (cs : Children R) (m : GroupNode R)
      → place g (leaf ∷ []) (node h cs) ≡ placed m
      → (find_child leaf (node h cs) ≡ none) × (node h (add_last cs (node g nil)) ≡ m)
  unfolding place
  placed_leaf g leaf h cs m e = elim (Option-cases (find_child leaf (node h cs))) [
    | inl k ↦ (k, ground (arith, rw (k, place) at e))
    | inr (n, k) ↦ absurd (ground (arith, rw (k, place) at e))
  ]

  -- A group that is placed along a path is at the end of that path, if the last component names it.
  pub place-resolve :
      (g : GroupInfo R) (path : List Text) (n m : GroupNode R)
      → is_named (last_of path) (node g nil) ≡ true
      → place g path n ≡ placed m
      → resolve m path ≡ some (node g nil)
  unfolding place resolve last_of
  place-resolve g [] n m l e = absurd (ground (arith, e))
  place-resolve g (leaf ∷ []) (node h cs) m l e =
      let (k, p) = placed_leaf g leaf h cs m e in
      subst (λ m. resolve m (leaf ∷ []) ≡ some (node g nil)) p
        (resolve_step leaf [] (node h (add_last cs (node g nil))) (node g nil)
          (added_found leaf h cs (node g nil) k l))
  place-resolve g (comp ∷ next ∷ comps) (node h cs) m l e =
      let (ds, p, q) = map_placed-cases (node h) (place_in comp (place g (next ∷ comps)) cs) m e in
      let r =
        place_in-IsReplaced comp (place g (next ∷ comps)) cs ds (place-Keeps g (next ∷ comps)) p in
      subst (λ m. resolve m (comp ∷ next ∷ comps) ≡ some (node g nil)) q
        (resolve_step comp (next ∷ comps) (node h ds) r.new (find_child-node comp h ds ∙ r.left)
          ∙ place-resolve g (next ∷ comps) r.old r.new l r.made)

  is_named-leaf :
      (g : GroupInfo R)
      → text_eq g.name root_group_name ≡ false
      → is_named (last_of (parse_group_name g.name)) (node g nil) ≡ true
  unfolding is_named leaf_name
  is_named-leaf g h = ground (arith, h, text_eq_refl (to_lower (last_of (parse_group_name g.name))))

  -- A group that is placed at the path of its own name is found at that path, with no child.
  pub place-found :
      (g : GroupInfo R) (n m : GroupNode R)
      → text_eq g.name root_group_name ≡ false
      → place g (parse_group_name g.name) n ≡ placed m
      → resolve m (parse_group_name g.name) ≡ some (node g nil)
  place-found g n m h e = place-resolve g (parse_group_name g.name) n m (is_named-leaf g h) e

  resolve_first :
      (comp : Text) (comps : List Text) (n k : GroupNode R)
      → resolve n (comp ∷ comps) ≡ some k
      → (c : GroupNode R) × (find_child comp n ≡ some c) × (resolve c comps ≡ some k)
  unfolding resolve
  resolve_first comp comps n k e = elim (Option-cases (find_child comp n)) [
    | inl h ↦ absurd (ground (arith, e, h))
    | inr (c, h) ↦ (c, h, sym (resolve_step comp comps n c h) ∙ e)
  ]

  added_later :
      (other : Text) (h : GroupInfo R) (cs : Children R) (n c : GroupNode R)
      → find_child other (node h cs) ≡ some c
      → find_child other (node h (add_last cs n)) ≡ some c
  added_later other h cs n c e = ground (
    arith,
    find_child-node other h cs,
    find_child-node other h (add_last cs n),
    find_among-add_last other cs n,
    e,
  )

  -- The path leads to a node with the fields of `k`.
  abbrev pub LeadsTo : GroupNode R → List Text → GroupNode R → Type 0
  LeadsTo m path k = (j : GroupNode R) × (resolve m path ≡ some j) × (info j ≡ info k)

  leads_step :
      (comp : Text) (comps : List Text) (n c k : GroupNode R)
      → find_child comp n ≡ some c
      → LeadsTo c comps k
      → LeadsTo n (comp ∷ comps) k
  leads_step comp comps n c k h (j, e, i) = (j, resolve_step comp comps n c h ∙ e, i)

  -- What a path led to before a group was placed, it leads to after, with the same fields.
  pub place-resolve_others :
      (g : GroupInfo R) (path others : List Text) (n m k : GroupNode R)
      → place g path n ≡ placed m
      → resolve n others ≡ some k
      → LeadsTo m others k
  unfolding place resolve
  place-resolve_others g path [] n m k e d = (m, refl, ground (arith, place-Keeps g path n m e, d))
  place-resolve_others g [] (other ∷ others) n m k e d = absurd (ground (arith, e))
  place-resolve_others g (leaf ∷ []) (other ∷ others) (node h cs) m k e d =
      let (c, f, d) = resolve_first other others (node h cs) k d in
      subst (λ m. LeadsTo m (other ∷ others) k) (placed_leaf g leaf h cs m e).1
        (leads_step other others (node h (add_last cs (node g nil))) c k
          (added_later other h cs (node g nil) c f) (k, d, refl))
  place-resolve_others g (comp ∷ next ∷ comps) (other ∷ others) (node h cs) m k e d =
      let (ds, p, q) = map_placed-cases (node h) (place_in comp (place g (next ∷ comps)) cs) m e in
      let r =
        place_in-IsReplaced comp (place g (next ∷ comps)) cs ds (place-Keeps g (next ∷ comps)) p in
      let (c, f, d) = resolve_first other others (node h cs) k d in
      subst (λ m. LeadsTo m (other ∷ others) k) q
        (elim (r.others other) [
          | inl s ↦
              leads_step other others (node h ds) c k
                (find_child-node other h ds ∙ s ∙ sym (find_child-node other h cs) ∙ f) (k, d, refl)
          | inr (u, v) ↦
              leads_step other others (node h ds) r.new k (find_child-node other h ds ∙ v) (
                place-resolve_others g (next ∷ comps) others r.old r.new k r.made
                  (ground (arith, d, u, f, find_child-node other h cs)))
        ])
