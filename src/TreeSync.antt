-- ===== src/TreeSync.antt =====
-- openmls/openmls/src/treesync/diff.rs and treesync/node/parent_node.rs: the ratchet tree of public
-- keys while a commit is applied. Nothing here looks into a leaf node, whose type is a parameter.
pub mod Nodes
pub mod Diff
pub mod LastFull
pub mod Trim
pub mod Leaves
pub mod Growth
pub mod Additions
pub mod Returns
pub mod Resolution
pub mod Resolved
pub mod Shown
pub mod Kept
pub mod Reached
mod Tests
