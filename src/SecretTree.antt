-- ===== src/SecretTree.antt =====
-- openmls/openmls/src/tree/secret_tree.rs: the tree that derives the ratchets of each member from the
-- encryption secret of an epoch, and blanks what it has derived from.
pub mod Derived
pub mod Rooted
pub mod Initialized
pub mod Calls
pub mod Agreement
mod Tests
use mls4rn.Prelude.{
  Bool, true, false, leb, ◌==◌, if◌then◌else◌, Option, none, some, List, [], ◌∷◌, replicate,
  get_elem?, set, length, ltb,
}
use mls4rn.Prelude.{Result, ok, err, ok_or}
use mls4rn.Prelude.Actions.{Action, ◌>>=◌, return, fail, lift, read}
use mls4rn.Ciphersuite.{Ciphersuite, hash_length}
use mls4rn.Secrets.{Secret, Provider, kdf_expand_label, codes}
use mls4rn.SenderRatchet.{
  SecretTreeError, index_out_of_bounds, ratchet_type_error, library_error, panicked, Generation,
  SenderRatchetConfiguration, RatchetKeyMaterial, initial_ratchet_secret, decryption_ratchet,
  ratchet_forward, from_crypto, SenderRatchet, encryption, decryption,
  secret_for_decryption as ratchet_secret_for_decryption, derive_child_secrets,
}
use mls4rn.TreeMath.Index.{LeafNodeIndex, ParentNodeIndex, TreeNodeIndex}
use mls4rn.TreeMath.Size.{TreeSize, leaf_count}
use mls4rn.TreeMath.Navigation.{left, right, root}
use mls4rn.TreeMath.Paths.{direct_path}

pub data SecretType : Type 0 where
  handshake_secret application_secret : SecretType

-- `ContentType`, of framing/mod.rs.
pub data ContentType : Type 0 where
  application proposal commit : ContentType

abbrev pub secret_type : ContentType → SecretType
secret_type application = application_secret
secret_type commit = handshake_secret
secret_type proposal = handshake_secret

pub record SecretTreeNode : Type 0 where
  pub secret : Secret

pub record SecretTree : Type 0 where
  pub own_index : LeafNodeIndex
  pub leaf_nodes : List (Option SecretTreeNode)
  pub parent_nodes : List (Option SecretTreeNode)
  pub handshake_sender_ratchets : List (Option SenderRatchet)
  pub application_sender_ratchets : List (Option SenderRatchet)
  pub size : TreeSize

-- A method that changes a `SecretTree`.
abbrev pub Method : Type 0 → Type 0
Method A = Action SecretTree SecretTreeError A

unfoldable pub get_node :
    SecretTree → TreeNodeIndex → Result SecretTreeError (Option SecretTreeNode)
get_node t (TreeNodeIndex.leaf i) = ok_or (get_elem? t.leaf_nodes i) index_out_of_bounds
get_node t (TreeNodeIndex.parent i) = ok_or (get_elem? t.parent_nodes i) index_out_of_bounds

unfoldable pub set_node : TreeNodeIndex → Option SecretTreeNode → Method (Unit {0})
set_node (TreeNodeIndex.leaf i) node t =
    if ltb i (length t.leaf_nodes)
    then (record t { leaf_nodes = set t.leaf_nodes i node }, ok tt)
    else (t, err index_out_of_bounds)
set_node (TreeNodeIndex.parent i) node t =
    if ltb i (length t.parent_nodes)
    then (record t { parent_nodes = set t.parent_nodes i node }, ok tt)
    else (t, err index_out_of_bounds)

-- The fields of a new tree, all blank.
abbrev pub blank_tree : TreeSize → LeafNodeIndex → SecretTree
blank_tree size own = record {
  own_index = own;
  leaf_nodes = replicate (leaf_count size) none;
  parent_nodes = replicate (leaf_count size) none;
  handshake_sender_ratchets = replicate (leaf_count size) none;
  application_sender_ratchets = replicate (leaf_count size) none;
  size = size;
}

-- `SecretTree::new`, which ignores the result of `set_node`.
unfoldable pub secret_tree : Secret → TreeSize → LeafNodeIndex → SecretTree
secret_tree s size own =
    (set_node (root size) (some (record { secret = s })) (blank_tree size own)).0

abbrev pub sender_ratchets : SecretTree → SecretType → List (Option SenderRatchet)
sender_ratchets t handshake_secret = t.handshake_sender_ratchets
sender_ratchets t application_secret = t.application_sender_ratchets

unfoldable pub ratchet_opt :
    LeafNodeIndex → SecretType → SecretTree → Result SecretTreeError (Option SenderRatchet)
ratchet_opt i type t = ok_or (get_elem? (sender_ratchets t type) i) index_out_of_bounds

-- `ratchet_mut`: the ratchet that is there, to be written back by `set_ratchet`.
abbrev pub present : Option (Option SenderRatchet) → Option SenderRatchet
present (some r) = r
present none = none

unfoldable pub ratchet_mut :
    LeafNodeIndex → SecretType → SecretTree → Result SecretTreeError SenderRatchet
ratchet_mut i type t = ok_or (present (get_elem? (sender_ratchets t type) i)) index_out_of_bounds

-- `*sender_ratchets.get_mut(index).ok_or(IndexOutOfBounds)? = Some(ratchet)`
unfoldable pub set_ratchet : LeafNodeIndex → SecretType → SenderRatchet → Method (Unit {0})
set_ratchet i handshake_secret r t =
    if ltb i (length t.handshake_sender_ratchets)
    then (
      record t { handshake_sender_ratchets = set t.handshake_sender_ratchets i (some r) },
      ok tt,
    )
    else (t, err index_out_of_bounds)
set_ratchet i application_secret r t =
    if ltb i (length t.application_sender_ratchets)
    then (
      record t { application_sender_ratchets = set t.application_sender_ratchets i (some r) },
      ok tt,
    )
    else (t, err index_out_of_bounds)

module _ (p : Provider) (c : Ciphersuite) where
  unfoldable pub derive_down : ParentNodeIndex → Method (Unit {0})
  derive_down i = do
    found ← read (λ t. get_node t (TreeNodeIndex.parent i))
    node ← lift (ok_or found library_error)
    secrets ← lift (from_crypto (derive_child_secrets p c node.secret))
    _ ← set_node (left i) (some (record { secret = secrets.0 }))
    _ ← set_node (right i) (some (record { secret = secrets.1 }))
    set_node (TreeNodeIndex.parent i) none

  -- The loop over the derived-down nodes.
  abbrev pub derive_all : List ParentNodeIndex → Method (Unit {0})
  derive_all [] = return tt
  derive_all (i ∷ is) = do _ ← derive_down i; derive_all is

  abbrev pub stop_at :
      Result SecretTreeError (Option SecretTreeNode)
      → List ParentNodeIndex
      → Result SecretTreeError (List ParentNodeIndex)
      → Result SecretTreeError (List ParentNodeIndex)
  stop_at (ok (some node)) found rest = ok found
  stop_at (ok none) found rest = rest
  stop_at (err e) found rest = err e

  -- The loop over the direct path, up to the first node that holds a secret. A node is pushed at the
  -- front: this is the reversed vector.
  abbrev pub empty_nodes :
      SecretTree
      → List ParentNodeIndex
      → List ParentNodeIndex
      → Result SecretTreeError (List ParentNodeIndex)
  empty_nodes t [] pushed = ok pushed
  empty_nodes t (i ∷ is) pushed =
      let rest = empty_nodes t is (i ∷ pushed) in
      stop_at (get_node t (TreeNodeIndex.parent i)) (i ∷ pushed) rest

  -- Both ratchets are there; the second is looked at only if the first is.
  abbrev pub and_also :
      Option SenderRatchet
      → Result SecretTreeError (Option SenderRatchet)
      → Result SecretTreeError Bool
  and_also none r = ok false
  and_also (some a) (ok (some b)) = ok true
  and_also (some a) (ok none) = ok false
  and_also (some a) (err e) = err e

  abbrev pub are_initialized : LeafNodeIndex → Method Bool
  are_initialized i = do
    first ← read (ratchet_opt i handshake_secret)
    read (λ t. and_also first (ratchet_opt i application_secret t))

  -- If the leaf has no secret, it is derived from the first node above it that has one.
  abbrev pub derive_leaf : LeafNodeIndex → Option SecretTreeNode → Method (Unit {0})
  derive_leaf i (some node) = return tt
  derive_leaf i none = do
    path ← read (λ t. ok_or (direct_path i t.size) panicked)
    empty ← read (λ t. empty_nodes t path [])
    derive_all empty

  -- The new ratchets of a leaf, for its own member or for another.
  abbrev pub new_ratchet : Bool → Secret → SenderRatchet
  new_ratchet true s = encryption (initial_ratchet_secret s)
  new_ratchet false s = decryption (decryption_ratchet s)

  abbrev pub fill_ratchets : LeafNodeIndex → Bool → Method (Unit {0})
  fill_ratchets i true = return tt
  fill_ratchets i false = do
    leaf ← read (λ t. get_node t (TreeNodeIndex.leaf i))
    _ ← derive_leaf i leaf
    found ← read (λ t. get_node t (TreeNodeIndex.leaf i))
    node ← lift (ok_or found library_error)
    handshake ←
        lift (from_crypto (kdf_expand_label p c node.secret (codes "handshake") [] (hash_length c)))
    messages ←
        lift
          (from_crypto (kdf_expand_label p c node.secret (codes "application") [] (hash_length c)))
    own ← read (λ t. ok (i == t.own_index))
    _ ← set_ratchet i handshake_secret (new_ratchet own handshake)
    _ ← set_ratchet i application_secret (new_ratchet own messages)
    set_node (TreeNodeIndex.leaf i) none

  unfoldable pub initialize_sender_ratchets : LeafNodeIndex → Method (Unit {0})
  initialize_sender_ratchets i t =
      if leb (leaf_count t.size) i
      then (t, err index_out_of_bounds)
      else (are_initialized i >>= fill_ratchets i) t

  abbrev pub ensure : LeafNodeIndex → Option SenderRatchet → Method (Unit {0})
  ensure i (some r) = return tt
  ensure i none = initialize_sender_ratchets i

  -- The ratchet's own call, with its new state written back.
  abbrev pub decrypt_with :
      LeafNodeIndex
      → SecretType
      → Generation
      → SenderRatchetConfiguration
      → SenderRatchet
      → Method RatchetKeyMaterial
  decrypt_with i type g cfg (encryption r) = fail ratchet_type_error
  decrypt_with i type g cfg (decryption r) =
      let (r', keys) = ratchet_secret_for_decryption p c r g cfg in
      do _ ← set_ratchet i type (decryption r'); lift keys

  unfoldable pub secret_for_decryption :
      LeafNodeIndex
      → SecretType
      → Generation
      → SenderRatchetConfiguration
      → Method RatchetKeyMaterial
  secret_for_decryption i type g cfg t =
      if leb (leaf_count t.size) i
      then (t, err index_out_of_bounds)
      else (do
        found ← read (ratchet_opt i type)
        _ ← ensure i found
        ratchet ← read (ratchet_mut i type)
        decrypt_with i type g cfg ratchet)
          t

  abbrev pub encrypt_with :
      LeafNodeIndex → SecretType → SenderRatchet → Method (Generation × RatchetKeyMaterial)
  encrypt_with i type (decryption r) = fail ratchet_type_error
  encrypt_with i type (encryption r) = do
    (r', g, keys) ← lift (ratchet_forward p c r)
    _ ← set_ratchet i type (encryption r')
    return (g, keys)

  unfoldable pub secret_for_encryption :
      LeafNodeIndex → SecretType → Method (Generation × RatchetKeyMaterial)
  secret_for_encryption i type = do
    found ← read (ratchet_opt i type)
    _ ← ensure i found
    ratchet ← read (ratchet_mut i type)
    encrypt_with i type ratchet
