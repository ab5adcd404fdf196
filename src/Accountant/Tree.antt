-- ===== src/Accountant/Tree.antt =====
-- negotiator/accountant/grouptree.go: the tree of accounting groups (`negotiator.GroupNode`, of
-- negotiator/interfaces.go), and the group of a submitter. A node is a value with its children; the
-- pointer to its parent and the fields that later phases fill are left out.
pub mod Build
pub mod Walk
pub mod Tests
use golang_collector.Base.{
  ℕ, zero, suc, Bool, true, false, Option, none, some, List, [], ◌∷◌, ◌++◌, ◌==◌, if◌then◌else◌,
}
use golang_collector.Base.Text.{Text, codes, text_eq, to_lower}
use golang_collector.Store.AdType.{equal_fold}

-- The configured fields of a group; `R` stands for float64.
pub record GroupInfo (R : Type 0) : Type 0 where
  pub name : Text
  pub config_quota : R
  pub static_quota : Bool
  pub accept_surplus : Bool
  pub autoregroup : Bool

mutual
  pub data GroupNode (R : Type 0) : Type 0 where
    node : GroupInfo R → Children R → GroupNode R

  pub data Children (R : Type 0) : Type 0 where
    nil : Children R
    cons : GroupNode R → Children R → Children R

abbrev pub root_group_name : Text
root_group_name = codes "<none>"

-- `strings.Split(s, ".")`
unfoldable pub parse_group_name : Text → List Text
parse_group_name [] = [] ∷ []
parse_group_name (c ∷ s) =
    let rest = parse_group_name s in
    elim rest [
      | [] ↦ if c == b'.' then [] ∷ [] else (c ∷ []) ∷ []
      | t ∷ ts ↦ if c == b'.' then [] ∷ t ∷ ts else (c ∷ t) ∷ ts
    ]

unfoldable pub last_of : List Text → Text
last_of [] = []
last_of (t ∷ []) = t
last_of (t ∷ u ∷ us) = last_of (u ∷ us)

unfoldable pub leaf_name : Text → Text
unfolding parse_group_name last_of
leaf_name full = if text_eq full root_group_name then full else last_of (parse_group_name full)

-- What is in front of the last `c`: `strings.LastIndex` and the slice up to it.
unfoldable pub before_last : ℕ → Text → Option Text
before_last c [] = none
before_last c (d ∷ s) =
    let rest = before_last c s in
    elim rest [ some t ↦ some (d ∷ t) | none ↦ if d == c then some [] else none ]

module _ {R : Type 0} where
  abbrev pub info : GroupNode R → GroupInfo R
  info (node g cs) = g

  abbrev pub children : GroupNode R → Children R
  children (node g cs) = cs

  abbrev pub to_list : Children R → List (GroupNode R)
  to_list nil = []
  to_list (cons n cs) = n ∷ to_list cs

  -- The child's name matches.
  unfoldable pub is_named : Text → GroupNode R → Bool
  is_named name (node g cs) = equal_fold (leaf_name g.name) name

  unfoldable pub find_in : Text → List (GroupNode R) → Option (GroupNode R)
  find_in name [] = none
  find_in name (n ∷ ns) = if is_named name n then some n else find_in name ns

  unfoldable pub find_child : Text → GroupNode R → Option (GroupNode R)
  unfolding find_in
  find_child name parent = find_in name (to_list (children parent))

  -- The loop of `BreadthFirst` over its queue, with fuel above the number of nodes.
  unfoldable pub breadth_first_from : ℕ → List (GroupNode R) → Option (List (GroupNode R))
  breadth_first_from zero queue = none
  breadth_first_from (suc fuel) [] = some []
  breadth_first_from (suc fuel) (n ∷ queue) =
      let rest = breadth_first_from fuel (queue ++ to_list (children n)) in
      elim rest [ none ↦ none | some out ↦ some (n ∷ out) ]

  unfoldable pub breadth_first : ℕ → GroupNode R → Option (List (GroupNode R))
  unfolding breadth_first_from
  breadth_first fuel root = breadth_first_from fuel (root ∷ [])

  -- `BuildNameMap`, from the list of all nodes; a later entry of a name replaces an earlier one.
  unfoldable pub build_name_map : List (GroupNode R) → List (Text × GroupNode R)
  build_name_map [] = []
  build_name_map (n ∷ ns) = (to_lower (info n).name, n) ∷ build_name_map ns

  unfoldable pub lookup_last : Text → List (Text × GroupNode R) → Option (GroupNode R)
  lookup_last name [] = none
  lookup_last name ((key, n) ∷ rest) =
      let later = lookup_last name rest in
      elim later [ some m ↦ some m | none ↦ if text_eq key name then some n else none ]

  -- The walk of `GetAssignedGroup`.
  unfoldable pub descend : GroupNode R → List Text → GroupNode R
  descend group [] = group
  descend group (comp ∷ comps) = elim (find_child comp group) [
    | none ↦ group
    | some child ↦ descend child comps
  ]

  unfoldable pub get_assigned_group : GroupNode R → List (Text × GroupNode R) → Text → GroupNode R
  unfolding lookup_last before_last descend
  get_assigned_group root name_map customer = elim (lookup_last (to_lower customer) name_map) [
    | some n ↦ n
    | none ↦ elim (before_last b'@' customer) [
      | none ↦ root
      | some user ↦ elim (before_last b'.' user) [
        | none ↦ root
        | some gname ↦ descend root (parse_group_name gname)
      ]
    ]
  ]
