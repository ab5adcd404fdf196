-- ===== src/Accountant/Tree/Tests.antt =====
-- Runs of the construction of the tree of groups and of the walks over it, with natural numbers.
use golang_collector.Base.{
  ℕ, suc, ◌≡◌, refl, Bool, true, false, none, some, List, [], ◌∷◌, length, take, ◌⊎◌, All, arith,
}
use golang_collector.Base.Text.{Text, codes, to_lower}
use golang_collector.Matchmaker.Match.Tests.{naturals}
use golang_collector.Accountant.Tree.{
  GroupInfo, GroupNode, node, nil, cons, info, leaf_name, is_named, find_child, breadth_first,
  descend, parse_group_name, build_name_map, get_assigned_group,
}
use golang_collector.Accountant.Tree.Walk.{size, resolve, length-breadth_first, descend-resolve}
use golang_collector.Accountant.Tree.Build.{
  GroupConfig, missing, Building, add_groups, text_lt, build_group_tree,
}
use golang_collector.Accountant.Tree.Build.Kept.{Accounted, add_groups-Accounted}

abbrev config : GroupConfig naturals
config = record {
  group_names = codes "physics.cms" ∷ codes "bio.x" ∷ codes "Physics" ∷ [];
  group_quota = (codes "physics", 5) ∷ [];
  group_quota_dynamic = (codes "PHYSICS.CMS", 7) ∷ [];
  group_accept_surplus = (codes "physics", true) ∷ [];
  group_autoregroup = (codes "bio.x", true) ∷ [];
  default_accept_surplus = false;
  default_autoregroup = false;
  group_sort_expr = [];
}

abbrev group : Text → ℕ → Bool → Bool → GroupInfo ℕ
group name quota static surplus = record {
  name = name;
  config_quota = quota;
  static_quota = static;
  accept_surplus = surplus;
  autoregroup = false;
}

abbrev tree : GroupNode ℕ
tree = node (group (codes "<none>") 0 false true) (
    cons
      (node (group (codes "Physics") 5 true true)
        (cons (node (group (codes "physics.cms") 1 false false) nil) nil))
      nil)

-- The parent comes first in the order of the names, and a group without a parent is left out.
build_group_tree_run :
    build_group_tree naturals (λ s. true) config
    ≡ some (tree, missing (codes "bio.x") (codes "bio") ∷ [])
unfolding build_group_tree to_lower text_lt parse_group_name find_child is_named leaf_name
build_group_tree_run = refl

-- A submitter of an unknown subgroup is of the deepest group that is there.
get_assigned_group_run :
    info (get_assigned_group tree (build_name_map (tree ∷ [])) (codes "physics.cms.top.ann@cern"))
    ≡ group (codes "physics.cms") 1 false false
unfolding get_assigned_group build_name_map to_lower find_child is_named leaf_name parse_group_name
get_assigned_group_run = refl

length-breadth_first_example :
    (out : List (GroupNode ℕ)) × (breadth_first 4 tree ≡ some out) × (length out ≡ size tree)
unfolding size
length-breadth_first_example = length-breadth_first 4 tree (omega arith)

abbrev path : List Text
path = codes "physics" ∷ codes "cms" ∷ codes "top" ∷ []

descend-resolve_example :
    (n : ℕ) × (resolve tree (take n path) ≡ some (descend tree path))
    × ((take n path ≡ path) ⊎ (resolve tree (take (suc n) path) ≡ none))
descend-resolve_example = descend-resolve path tree

abbrev start : Building naturals
start = record {
  root = node (group (codes "<none>") 0 false true) nil;
  warnings = [];
  global_autoregroup = false;
}

abbrev names : List Text
names = codes "bio.x" ∷ codes "Physics" ∷ codes "physics.cms" ∷ []

add_groups-Accounted_example :
    All (Accounted naturals config (add_groups naturals config names start)) names
add_groups-Accounted_example =
    add_groups-Accounted naturals config names start (refl, (refl, (refl, tt)))
