-- ===== src/BinaryTree.antt =====
-- openmls/openmls/src/binary_tree/array_representation/tree.rs and diff.rs: the binary tree under the
-- ratchet tree, and the diff that collects changes to it before they are merged.
pub mod Map
pub mod Tree
pub mod Diff
pub mod Lookup
pub mod Sound
pub mod Paths
pub mod Merge
pub mod Outside
pub mod Edits
pub mod Arrays
mod Tests
