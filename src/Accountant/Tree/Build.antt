-- ===== src/Accountant/Tree/Build.antt =====
-- negotiator/accountant/grouptree.go: the construction of the tree of groups from the configuration.
pub mod Found
pub mod Kept
use golang_collector.Base.{
  ℕ, Bool, true, false, not, ◌||◌, ◌&&◌, Option, none, some, List, [], ◌∷◌, ◌++◌, ltb, ◌==◌,
  if◌then◌else◌,
}
use golang_collector.Base.Text.{Text, codes, text_eq, to_lower}
use golang_collector.Matchmaker.Floats.{Floats}
use golang_collector.Store.AdType.{equal_fold}
use golang_collector.Accountant.Tree.{
  GroupInfo, GroupNode, Children, node, nil, cons, root_group_name, parse_group_name, is_named,
  find_child,
}

-- A name goes under a parent that is missing, or is there already, or is placed.
pub data Placement (A : Type 0) : Type 0 where
  missing_parent : Text → Placement A
  duplicate : Placement A
  placed : A → Placement A

abbrev pub map_placed : {A B : Type 0} → (A → B) → Placement A → Placement B
map_placed f (missing_parent name) = missing_parent name
map_placed f duplicate = duplicate
map_placed f (placed a) = placed (f a)

module _ {R : Type 0} where
  unfoldable pub add_last : Children R → GroupNode R → Children R
  add_last nil n = cons n nil
  add_last (cons m cs) n = cons m (add_last cs n)

  -- The first child of that name is replaced by what `f` makes of it.
  unfoldable pub place_in :
      Text → (GroupNode R → Placement (GroupNode R)) → Children R → Placement (Children R)
  place_in name f nil = missing_parent name
  place_in name f (cons n cs) =
      let rest = map_placed (cons n) (place_in name f cs) in
      if is_named name n then map_placed (λ m. cons m cs) (f n) else rest

  -- The walk to the parent, the test for a child of that name, and the new child.
  unfoldable pub place : GroupInfo R → List Text → GroupNode R → Placement (GroupNode R)
  unfolding add_last place_in
  place g [] n = duplicate
  place g (leaf ∷ []) (node h cs) = elim (find_child leaf (node h cs)) [
    | some n ↦ duplicate
    | none ↦ placed (node h (add_last cs (node g nil)))
  ]
  place g (comp ∷ next ∷ comps) (node h cs) =
      map_placed (node h) (place_in comp (place g (next ∷ comps)) cs)

-- `a < b` of strings.
unfoldable pub text_lt : Text → Text → Bool
text_lt [] [] = false
text_lt [] (d ∷ t) = true
text_lt (c ∷ s) [] = false
text_lt (c ∷ s) (d ∷ t) = let rest = text_lt s t in if c == d then rest else ltb c d

abbrev pub ci_less : Text → Text → Bool
ci_less a b = text_lt (to_lower a) (to_lower b)

-- sort.SliceStable
insert_name : Text → List Text → List Text
insert_name a [] = a ∷ []
insert_name a (b ∷ bs) = let rest = insert_name a bs in if ci_less b a then b ∷ rest else a ∷ b ∷ bs

unfoldable pub sort_names : List Text → List Text
unfolding insert_name
sort_names [] = []
sort_names (a ∷ rest) = insert_name a (sort_names rest)

-- `cfgFloat` and `cfgBool`: the exact key, or else the first that is equal up to case.
abbrev exact : {A : Type 0} → List (Text × A) → Text → Option A
exact [] name = none
exact ((key, a) ∷ rest) name = if text_eq key name then some a else exact rest name

abbrev folded : {A : Type 0} → List (Text × A) → Text → Option A
folded [] name = none
folded ((key, a) ∷ rest) name = if equal_fold key name then some a else folded rest name

unfoldable pub cfg_value : {A : Type 0} → List (Text × A) → Text → Option A
cfg_value m name = elim (exact m name) [ some a ↦ some a | none ↦ folded m name ]

abbrev or_else : {A : Type 0} → A → Option A → A
or_else def none = def
or_else def (some a) = a

abbrev default_group_sort_expr : Text
default_group_sort_expr =
    codes
      "ifThenElse(AccountingGroup=?=\"<none>\",3.4e+38, ifThenElse(GroupQuota>0, GroupResourcesInUse/GroupQuota, 3.3e+38))"

pub data Warning : Type 0 where
  reserved_name duplicate_name negative_quota no_quota : Text → Warning
  missing : Text → Text → Warning

module _ (f : Floats) where
  -- GroupConfig, as far as the tree reads it. The maps are association lists in some order.
  pub record GroupConfig : Type 0 where
    pub group_names : List Text
    pub group_quota : List (Text × f.R)
    pub group_quota_dynamic : List (Text × f.R)
    pub group_accept_surplus : List (Text × Bool)
    pub group_autoregroup : List (Text × Bool)
    pub default_accept_surplus : Bool
    pub default_autoregroup : Bool
    pub group_sort_expr : Text

  -- The quota of a group, whether it is static, and the warnings.
  unfoldable pub quota_of : GroupConfig → Text → f.R × (Bool × List Warning)
  unfolding cfg_value
  quota_of cfg name = elim (cfg_value cfg.group_quota name) [
    | some q ↦ if f.lt q f.zero then (f.zero, (true, negative_quota name ∷ [])) else (q, (true, []))
    | none ↦ elim (cfg_value cfg.group_quota_dynamic name) [
      | some q ↦ (if f.lt q f.zero then f.zero else if f.lt f.one q then f.one else q, (false, []))
      | none ↦ (f.zero, (false, no_quota name ∷ []))
    ]
  ]

  unfoldable pub group_info : GroupConfig → Text → GroupInfo f.R
  unfolding quota_of
  group_info cfg name = record {
    name = name;
    config_quota = (quota_of cfg name).0;
    static_quota = (quota_of cfg name).1.0;
    accept_surplus = or_else cfg.default_accept_surplus (cfg_value cfg.group_accept_surplus name);
    autoregroup = or_else cfg.default_autoregroup (cfg_value cfg.group_autoregroup name);
  }

  -- The tree so far, the warnings, and whether some group has autoregroup.
  pub record Building : Type 0 where
    pub root : GroupNode f.R
    pub warnings : List Warning
    pub global_autoregroup : Bool

  -- One pass of the loop over the names.
  unfoldable pub add_group : GroupConfig → Text → Building → Building
  unfolding place group_info
  add_group cfg name b =
      let g = group_info cfg name in
      elim (place g (parse_group_name name) b.root) [
        | missing_parent comp ↦ record b { warnings = b.warnings ++ missing name comp ∷ [] }
        | duplicate ↦ record b { warnings = b.warnings ++ duplicate_name name ∷ [] }
        | placed root ↦ record {
          root = root;
          warnings = b.warnings ++ (quota_of cfg name).1.1;
          global_autoregroup = b.global_autoregroup || g.autoregroup;
        }
      ]

  abbrev pub add_groups : GroupConfig → List Text → Building → Building
  add_groups cfg [] b = b
  add_groups cfg (name ∷ names) b = add_groups cfg names (add_group cfg name b)

  abbrev split_reserved : List Text → List Text × List Warning
  split_reserved [] = ([], [])
  split_reserved (name ∷ names) =
      let rest = split_reserved names in
      if equal_fold name root_group_name
      then (rest.0, reserved_name name ∷ rest.1)
      else (name ∷ rest.0, rest.1)

  with_autoregroup : Bool → GroupNode f.R → GroupNode f.R
  with_autoregroup flag (node g cs) = node (record g { autoregroup = flag }) cs

  abbrev start_tree : GroupConfig → List Warning → Building
  start_tree cfg reserved = record {
    root =
        node
          (record {
            name = root_group_name;
            config_quota = f.zero;
            static_quota = false;
            accept_surplus = true;
            autoregroup = false;
          })
          nil;
    warnings = reserved;
    global_autoregroup = cfg.default_autoregroup;
  }

  abbrev sort_expr : Text → Text
  sort_expr [] = default_group_sort_expr
  sort_expr (c ∷ s) = c ∷ s

  -- `BuildGroupTree`, where `parses` is the test of classad.ParseExpr; `none` is its error.
  unfoldable pub build_group_tree :
      (Text → Bool) → GroupConfig → Option (GroupNode f.R × List Warning)
  unfolding add_group sort_names with_autoregroup
  build_group_tree parses cfg =
      if not (parses (sort_expr cfg.group_sort_expr))
      then none
      else (let (names, reserved) = split_reserved cfg.group_names in
          let b = add_groups cfg (sort_names names) (start_tree cfg reserved) in
          some (with_autoregroup b.global_autoregroup b.root, b.warnings))
