-- ===== src/BinaryTree/Tree.antt =====
-- tree.rs: the tree, with its leaves and its parents in two vectors.
use mls4rn.Prelude.{
  ℕ, ◌+◌, ◌%◌, ◌==◌, ltb, not, if◌then◌else◌, u32, Option, none, some, List, [], ◌∷◌, length,
  get_elem?, Result, ok, err, ◌>>=◌, take, ◌++◌, replicate, ◌-◌,
}
use mls4rn.TreeMath.Index.{LeafNodeIndex, ParentNodeIndex}
use mls4rn.TreeMath.Size.{TreeSize, max_tree_size, tree_size as size_of_nodes}
use mls4rn.TreeMath.Paths.{common_direct_path}

-- `Default`
pub record Default (A : Type 0) : Type 0 where
  pub default : A

abbrev pub default : {A : Type 0} ⦃d : Default A⦄ → A
default ⦃d⦄ = d.default

abbrev pub unwrap_or : {A : Type 0} → Option A → A → A
unwrap_or (some a) b = a
unwrap_or none b = b

pub data ABinaryTreeError : Type 0 where
  out_of_range invalid_number_of_nodes wrong_node_type : ABinaryTreeError

pub data TreeNode (L P : Type 0) : Type 0 where
  leaf : L → TreeNode L P
  parent : P → TreeNode L P

pub record ABinaryTree (L P : Type 0) : Type 0 where
  pub leaf_nodes : List L
  pub parent_nodes : List P
  pub default_leaf : L
  pub default_parent : P

-- `.iter().enumerate()`, with the index cast to u32.
unfoldable pub enumerate : {A : Type 0} → ℕ → List A → List (ℕ × A)
enumerate i [] = []
enumerate i (x ∷ xs) = (u32 i, x) ∷ enumerate (i + 1) xs

-- `resize_with(n, Default::default)`
unfoldable pub resize_with : {A : Type 0} ⦃d : Default A⦄ → ℕ → List A → List A
resize_with n xs = take n xs ++ replicate (n - length xs) default

module _ {L P : Type 0} where
  abbrev pub push_leaf : L → List L × List P → Result ABinaryTreeError (List L × List P)
  push_leaf l out = ok (l ∷ out.0, out.1)

  abbrev pub push_parent : P → List L × List P → Result ABinaryTreeError (List L × List P)
  push_parent p out = ok (out.0, p ∷ out.1)

  abbrev pub with_defaults :
      ⦃l : Default L⦄ ⦃p : Default P⦄ → List L × List P → Result ABinaryTreeError (ABinaryTree L P)
  with_defaults out = ok record {
    leaf_nodes = out.0;
    parent_nodes = out.1;
    default_leaf = default;
    default_parent = default;
  }

  -- The loop of `new` from index `i` on: the leaves, and the parents.
  unfoldable pub split_nodes : ℕ → List (TreeNode L P) → Result ABinaryTreeError (List L × List P)
  split_nodes i [] = ok ([], [])
  split_nodes i (leaf l ∷ nodes) =
      let rest = split_nodes (i + 1) nodes in
      if i % 2 == 0 then (rest >>= push_leaf l) else err wrong_node_type
  split_nodes i (parent p ∷ nodes) =
      let rest = split_nodes (i + 1) nodes in
      if i % 2 == 1 then (rest >>= push_parent p) else err wrong_node_type

  unfoldable pub new :
      ⦃l : Default L⦄ ⦃p : Default P⦄
      → List (TreeNode L P)
      → Result ABinaryTreeError (ABinaryTree L P)
  new nodes =
      if ltb max_tree_size (length nodes)
      then err out_of_range
      else if not (length nodes % 2 == 1)
      then err invalid_number_of_nodes
      else split_nodes 0 nodes >>= with_defaults

  unfoldable pub from_components :
      ⦃l : Default L⦄ ⦃p : Default P⦄ → List L → List P → Result ABinaryTreeError (ABinaryTree L P)
  from_components leaves parents =
      if ltb max_tree_size (length leaves + length parents)
      then err out_of_range
      else if not (length leaves == length parents + 1)
      then err invalid_number_of_nodes
      else with_defaults (leaves, parents)

  module _ (t : ABinaryTree L P) where
    unfoldable pub leaf_by_index : LeafNodeIndex → L
    leaf_by_index i = unwrap_or (get_elem? t.leaf_nodes i) t.default_leaf

    unfoldable pub parent_by_index : ParentNodeIndex → P
    parent_by_index i = unwrap_or (get_elem? t.parent_nodes i) t.default_parent

    unfoldable pub tree_size : TreeSize
    tree_size = size_of_nodes (u32 (length t.leaf_nodes + length t.parent_nodes))

    unfoldable pub leaf_count : ℕ
    leaf_count = u32 (length t.leaf_nodes)

    unfoldable pub parent_count : ℕ
    parent_count = u32 (length t.parent_nodes)

    unfoldable pub leaves : List (LeafNodeIndex × L)
    leaves = enumerate 0 t.leaf_nodes

    unfoldable pub parents : List (ParentNodeIndex × P)
    parents = enumerate 0 t.parent_nodes

    -- `leaf` and `parent` of the source, whose bodies are those of the two lookups above.
    unfoldable pub tree_leaf : LeafNodeIndex → L
    tree_leaf i = unwrap_or (get_elem? t.leaf_nodes i) t.default_leaf

    unfoldable pub tree_parent : ParentNodeIndex → P
    tree_parent i = unwrap_or (get_elem? t.parent_nodes i) t.default_parent

    unfoldable pub subtree_path : LeafNodeIndex → LeafNodeIndex → Option (List ParentNodeIndex)
    subtree_path i j = common_direct_path i j tree_size
