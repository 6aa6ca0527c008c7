-- ===== src/Lib.antt =====
-- The core of OpenMLS, the MLS implementation (RFC 9420) in openmls/ of this repository: the shape of
-- the trees that a group is kept in, and the secrets that give each message its key. The default
-- features of the crates are modelled, without the draft features for virtual clients and extensions.
--
-- Parts and files:
-- - TreeMath: openmls/openmls/src/binary_tree/array_representation/treemath.rs. Indices and sizes are
--   numbers with the wrap-around of u32 written out; Index, Size, Navigation and Paths hold the
--   functions under the names of the source. Shape and Inside describe a node by its level and its
--   offset in the level.
-- - SortedIter: openmls/openmls/src/binary_tree/array_representation/sorted_iter.rs, the merge of two
--   sorted iterators; `collect` runs `next` for a number of calls.
-- - BinaryTree: openmls/openmls/src/binary_tree/array_representation/tree.rs and diff.rs. A BTreeMap is
--   the list of its entries in the order of the keys. A method on &mut self of a diff returns the new
--   diff, and one that hands out a mutable reference takes what the caller does with it. Sound says
--   when a diff is well-formed, and Edits has the calls that change one as a step relation.
-- - TreeSync: openmls/openmls/src/treesync/diff.rs, treesync_node.rs and node/parent_node.rs, the
--   changes of leaves in the ratchet tree, and in Resolution the nodes to which the secrets of a path
--   are encrypted. It is a diff of BinaryTree over blank or full nodes; the type
--   of leaf nodes is a parameter.
-- - Proposals: openmls/openmls/src/messages/proposals.rs, framing/sender.rs and
--   group/mls_group/proposal_store.rs. Types has the proposals, Queue the store and the queue,
--   Committed the queue for a received commit and Filter the choice of proposals for an own commit.
--   What a proposal holds besides a leaf index or the identifier of a pre-shared key, and its
--   reference, which is a hash, are of parameter types. The order in which a hash map yields its
--   values is a parameter of the filter.
-- - Ciphersuite: openmls/traits/src/types.rs, the enums and the tables of the ciphersuites.
-- - Secrets: openmls/openmls/src/ciphersuite/secret.rs and kdf_label.rs. The crypto provider
--   (OpenMlsCrypto) and the TLS encoding of a label are the fields of the record Provider.
-- - SenderRatchet: openmls/openmls/src/tree/sender_ratchet.rs, with AeadKey and AeadNonce of
--   ciphersuite/aead.rs and the derivations of tree/secret_tree.rs. A method on &mut self returns the
--   new state beside its result. Chain describes the secrets of a ratchet; the other files are about
--   sequences of calls.
-- - SecretTree: openmls/openmls/src/tree/secret_tree.rs. It uses TreeMath for the paths and holds the
--   ratchets of all members. A method is an Action of Prelude/Actions: the state goes on past an
--   error, as in the source.
-- - PastSecrets: openmls/openmls/src/group/mls_group/past_secrets.rs, config.rs and
--   schedule/message_secrets.rs. MessageSecretsStore keeps one SecretTree for each past epoch. The
--   clock is a parameter, read as often as the source reads it.
-- - Prelude: tests on numbers, lists, words, results and the lemmas that the parts share.
--
-- Bounds and fuel: the loops over the digits of a word have 32 rounds, since a word has 32 digits; a
-- direct path has at most 30 nodes below the greatest tree size. The loops of trim_tree and add_leaf
-- have 32 rounds and a resolution goes 32 levels down, more than a tree has. A direct path that is not found within the rounds, or a
-- tree that does not grow to the leaf, would be a loop that does not end, and is none in the model.
-- The skipping loop of a ratchet counts down the generations to skip. Arithmetic is that of a build
-- without overflow checks and debug assertions; a usize is a number without bound, except for the
-- capacity of a VecDeque.
--
-- Not modelled: the draft features, logging, the formats of persistence, erasing secrets in memory,
-- and the parts of the repository around this core: update paths and hashes of the ratchet tree,
-- the key schedule, the state machine and the validation of a group, framing, storage
-- and crypto providers, the bindings and the packages in TypeScript.
pub mod PastSecrets
pub mod Prelude
pub mod Ciphersuite
pub mod Secrets
pub mod SenderRatchet
pub mod SecretTree
pub mod SortedIter
pub mod BinaryTree
pub mod TreeSync
pub mod Proposals
pub mod TreeMath
