-- ===== src/TreeMath.antt =====
-- openmls/openmls/src/binary_tree/array_representation/treemath.rs: the indices of a complete
-- binary tree in array form. The definitions stand in `Index`, `Size`, `Navigation` and `Paths`.
pub mod Index
pub mod Size
pub mod Navigation
pub mod Paths
pub mod Shape
pub mod Inside
pub mod DirectPath
pub mod CommonPath
pub mod Ancestor
pub mod Copath
pub mod Disjoint
pub mod Sizes
pub mod Family
mod Tests
