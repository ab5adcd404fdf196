-- ===== src/Accountant/Tree/Build/Kept.antt =====
-- negotiator/accountant/grouptree.go: the loop over the configured names, which loses no group
-- and no warning.
use golang_collector.Base.{
  ◌≡◌, ◌∙◌, ◌⊎◌, inl, inr, refl, false, List, [], ◌∷◌, ◌++◌, Somewhere, All,
}
use golang_collector.Base.Text.{Text, text_eq}
use golang_collector.Matchmaker.Floats.{Floats}
use golang_collector.Accountant.Tree.{
  GroupInfo, GroupNode, node, nil, root_group_name, parse_group_name,
}
use golang_collector.Accountant.Tree.Build.{
  Placement, missing_parent, duplicate, placed, place, Warning, missing, duplicate_name,
  GroupConfig, group_info, quota_of, Building, add_group, add_groups,
}
use golang_collector.Accountant.Tree.Build.Found.{LeadsTo, place-found, place-resolve_others}

module _ {A : Type 0} where
  Somewhere-append : (P : A → Type 0) (xs ys : List A) → Somewhere P xs → Somewhere P (xs ++ ys)
  Somewhere-append P [] ys h = elim h [ ]
  Somewhere-append P (x ∷ xs) ys (inl p) = inl p
  Somewhere-append P (x ∷ xs) ys (inr h) = inr (Somewhere-append P xs ys h)

  Somewhere-last : (P : A → Type 0) (xs : List A) (y : A) → P y → Somewhere P (xs ++ y ∷ [])
  Somewhere-last P [] y p = inl p
  Somewhere-last P (x ∷ xs) y p = inr (Somewhere-last P xs y p)

  Placement-cases :
      (p : Placement A)
      → ((c : Text) × (p ≡ missing_parent c)) ⊎ ((p ≡ duplicate) ⊎ ((a : A) × (p ≡ placed a)))
  Placement-cases (missing_parent c) = inl (c, refl)
  Placement-cases duplicate = inr (inl refl)
  Placement-cases (placed a) = inr (inr (a, refl))

-- The warning is that this name is left out.
abbrev pub Refuses : Text → Warning → Type 0
Refuses name w = ((comp : Text) × (w ≡ missing name comp)) ⊎ (w ≡ duplicate_name name)

module _ (f : Floats) (cfg : GroupConfig f) where
  -- The name leads to its group with the configured fields, or there is a warning for it.
  abbrev pub Accounted : Building f → Text → Type 0
  Accounted b name =
      LeadsTo b.root (parse_group_name name) (node (group_info f cfg name) nil)
      ⊎ Somewhere (Refuses name) b.warnings

  add_group-Accounted :
      (b : Building f) (name : Text)
      → text_eq name root_group_name ≡ false
      → Accounted (add_group f cfg name b) name
  unfolding add_group
  add_group-Accounted b name h =
      elim (Placement-cases (place (group_info f cfg name) (parse_group_name name) b.root)) [
        | inl (c, e) ↦ inr (
            rw (e, add_group)
              (Somewhere-last (Refuses name) b.warnings (missing name c) (inl (c, refl))))
        | inr (inl e) ↦ inr (
            rw (e, add_group)
              (Somewhere-last (Refuses name) b.warnings (duplicate_name name) (inr refl)))
        | inr (inr (m, e)) ↦ inl (
            rw (e, add_group)
              (
                node (group_info f cfg name) nil,
                place-found (group_info f cfg name) b.root m h e,
                refl,
              ))
      ]

  leads_later :
      (g : GroupInfo f.R) (path others : List Text) (n m k : GroupNode f.R)
      → place g path n ≡ placed m
      → LeadsTo n others k
      → LeadsTo m others k
  leads_later g path others n m k e (j, d, i) =
      let (l, c, p) = place-resolve_others g path others n m j e d in (l, c, p ∙ i)

  add_group-keeps :
      (b : Building f) (name other : Text)
      → Accounted b other
      → Accounted (add_group f cfg name b) other
  unfolding add_group
  add_group-keeps b name other (inl l) =
      elim (Placement-cases (place (group_info f cfg name) (parse_group_name name) b.root)) [
        | inl (c, e) ↦ inl (rw (e, add_group) l)
        | inr (inl e) ↦ inl (rw (e, add_group) l)
        | inr (inr (m, e)) ↦ inl (
            rw (e, add_group)
              (leads_later (group_info f cfg name) (parse_group_name name) (parse_group_name other)
                b.root m (node (group_info f cfg other) nil) e l))
      ]
  add_group-keeps b name other (inr w) =
      elim (Placement-cases (place (group_info f cfg name) (parse_group_name name) b.root)) [
        | inl (c, e) ↦ inr (
            rw (e, add_group) (Somewhere-append (Refuses other) b.warnings (missing name c ∷ []) w))
        | inr (inl e) ↦ inr (
            rw (e, add_group)
              (Somewhere-append (Refuses other) b.warnings (duplicate_name name ∷ []) w))
        | inr (inr (m, e)) ↦ inr (
            rw (e, add_group)
              (Somewhere-append (Refuses other) b.warnings ((quota_of f cfg name).1.1) w))
      ]

  add_groups-keeps :
      (names : List Text) (b : Building f) (other : Text)
      → Accounted b other
      → Accounted (add_groups f cfg names b) other
  add_groups-keeps [] b other a = a
  add_groups-keeps (name ∷ names) b other a =
      add_groups-keeps names (add_group f cfg name b) other (add_group-keeps b name other a)

  -- After the loop, every name, none of which is the root's, leads to a group with the configured
  -- fields, or has a warning that its parent is missing or that it is a duplicate.
  pub add_groups-Accounted :
      (names : List Text) (b : Building f)
      → All (λ name. text_eq name root_group_name ≡ false) names
      → All (Accounted (add_groups f cfg names b)) names
  add_groups-Accounted [] b h = tt
  add_groups-Accounted (name ∷ names) b (h, hs) = (
    add_groups-keeps names (add_group f cfg name b) name (add_group-Accounted b name h),
    add_groups-Accounted names (add_group f cfg name b) hs,
  )
