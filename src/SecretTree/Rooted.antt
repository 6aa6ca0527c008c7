-- ===== src/SecretTree/Rooted.antt =====
-- What the methods of a `SecretTree` keep: every secret and every ratchet belongs where it stands.
use mls4rn.Prelude.{
  ℕ, suc, ◌-◌, ◌^◌, ◌≤◌, ◌<◌, ◌≡◌, refl, sym, ◌⊎◌, ◌∙◌, inl, inr, Bool-cases, ltb, Option, none,
  some, List, [], ◌∷◌, length, set, arith,
}
use mls4rn.Prelude.{Result, ok, err, ok_or}
use mls4rn.Prelude.Outcomes.{Does, bind-Does, lift-Does, read-Does, return-Does}
use mls4rn.Ciphersuite.{Ciphersuite}
use mls4rn.Secrets.{Secret, CryptoError, Provider}
use mls4rn.SenderRatchet.{
  index_out_of_bounds, library_error, from_crypto, SenderRatchet, encryption, decryption,
}
use mls4rn.SenderRatchet.Chain.{OnChain}
use mls4rn.SenderRatchet.Window.{Window}
use mls4rn.SecretTree.{
  SecretTree, SecretTreeNode, SecretType, handshake_secret, application_secret, get_node, set_node,
  set_ratchet, ratchet_opt, sender_ratchets, derive_down, derive_all,
}
use mls4rn.SecretTree.Derived.{ratchet_root, expected, Derived, set_node-Derived, children, written}
use mls4rn.TreeMath.Index.{TreeNodeIndex, ParentNodeIndex, LeafNodeIndex}
use mls4rn.TreeMath.Navigation.{left, right}

set_node-size :
    (x : TreeNodeIndex) (entry : Option SecretTreeNode) (t : SecretTree)
    → (set_node x entry t).0.size ≡ t.size
unfolding set_node
set_node-size (TreeNodeIndex.leaf i) entry t = ground arith
set_node-size (TreeNodeIndex.parent i) entry t = ground arith

set_node-sender_ratchets :
    (x : TreeNodeIndex) (entry : Option SecretTreeNode) (t : SecretTree) (type : SecretType)
    → sender_ratchets (set_node x entry t).0 type ≡ sender_ratchets t type
unfolding set_node
set_node-sender_ratchets (TreeNodeIndex.leaf i) entry t type =
    elim (Bool-cases (ltb i (length t.leaf_nodes))) [ inl h ↦ rw h (same type) | inr h ↦ rw h refl ]
  where
    same :
        (type : SecretType)
        → sender_ratchets (record t { leaf_nodes = set t.leaf_nodes i entry }) type
          ≡ sender_ratchets t type
    same handshake_secret = refl
    same application_secret = refl
set_node-sender_ratchets (TreeNodeIndex.parent i) entry t type =
    elim (Bool-cases (ltb i (length t.parent_nodes))) [
      | inl h ↦ rw h (same type)
      | inr h ↦ rw h refl
    ]
  where
    same :
        (type : SecretType)
        → sender_ratchets (record t { parent_nodes = set t.parent_nodes i entry }) type
          ≡ sender_ratchets t type
    same handshake_secret = refl
    same application_secret = refl

set_ratchet-size :
    (i : LeafNodeIndex) (type : SecretType) (r : SenderRatchet) (t : SecretTree)
    → (set_ratchet i type r t).0.size ≡ t.size
unfolding set_ratchet
set_ratchet-size i handshake_secret r t = ground arith
set_ratchet-size i application_secret r t = ground arith

set_ratchet-get_node :
    (i : LeafNodeIndex) (type : SecretType) (r : SenderRatchet) (t : SecretTree) (x : TreeNodeIndex)
    → get_node (set_ratchet i type r t).0 x ≡ get_node t x
unfolding set_ratchet get_node
set_ratchet-get_node i handshake_secret r t (TreeNodeIndex.leaf m) = ground arith
set_ratchet-get_node i handshake_secret r t (TreeNodeIndex.parent m) = ground arith
set_ratchet-get_node i application_secret r t (TreeNodeIndex.leaf m) = ground arith
set_ratchet-get_node i application_secret r t (TreeNodeIndex.parent m) = ground arith

-- A ratchet that is found after a write is the written one, or was there before.
set_ratchet-written :
    (i : LeafNodeIndex) (type : SecretType) (r : SenderRatchet) (t : SecretTree)
    (type' : SecretType) (i' : LeafNodeIndex) (r' : SenderRatchet)
    → ratchet_opt i' type' (set_ratchet i type r t).0 ≡ ok (some r')
    → ((type ≡ type') × (i ≡ i') × (r ≡ r')) ⊎ (ratchet_opt i' type' t ≡ ok (some r'))
unfolding set_ratchet ratchet_opt
set_ratchet-written i handshake_secret r t application_secret i' r' e = inr (ground arith)
set_ratchet-written i application_secret r t handshake_secret i' r' e = inr (ground arith)
set_ratchet-written i handshake_secret r t handshake_secret i' r' e =
    elim (Bool-cases (ltb i (length t.handshake_sender_ratchets))) [
      | inr h ↦ inr (rw h at e)
      | inl h ↦
          elim (written index_out_of_bounds t.handshake_sender_ratchets i i' (some r) (rw h at e)) [
            | inl (same, is) ↦ inl (refl, same, cc)
            | inr old ↦ inr old
          ]
    ]
set_ratchet-written i application_secret r t application_secret i' r' e =
    elim (Bool-cases (ltb i (length t.application_sender_ratchets))) [
      | inr h ↦ inr (rw h at e)
      | inl h ↦
          elim (written index_out_of_bounds t.application_sender_ratchets i i' (some r)
            (rw h at e)) [ inl (same, is) ↦ inl (refl, same, cc) | inr old ↦ inr old ]
    ]

pub from_crypto-ok {ℓ} :
    {A : Type ℓ} (r : Result CryptoError A) (a : A) → from_crypto r ≡ ok a → r ≡ ok a
from_crypto-ok (ok b) a e = cc
from_crypto-ok (err x) a e = cc

pub ok_or-ok {ℓ κ} :
    {A : Type ℓ} {E : Type κ} (o : Option A) (e : E) (a : A) → ok_or o e ≡ ok a → o ≡ some a
ok_or-ok (some b) e a h = cc
ok_or-ok none e a h = cc

module _ (p : Provider) (c : Ciphersuite) (s : Secret) (h : ℕ) where
  abbrev pub IsRatchet : Secret → SenderRatchet → Type 0
  IsRatchet root (encryption r) = OnChain p c root r
  IsRatchet root (decryption r) = Window p c root r

  pub record Rooted (t : SecretTree) : Type 0 where
    pub full : t.size ≡ 2 ^ suc h - 1
    pub nodes : Derived p c s h t
    pub ratchets :
        (type : SecretType) (i : LeafNodeIndex) (r : SenderRatchet)
        → ratchet_opt i type t ≡ ok (some r)
        → (root : Secret) × (ratchet_root p c s h type i ≡ ok root) × IsRatchet root r

  -- Nothing to tell of a result.
  abbrev pub Nothing : Unit {0} → Type 0
  Nothing u = Unit {0}

  pub set_node-Does :
      (x : TreeNodeIndex) (entry : Option SecretTreeNode)
      → ((n : SecretTreeNode) → entry ≡ some n → expected p c s h x ≡ ok n.secret)
      → Does Rooted Nothing (set_node x entry)
  unfolding ratchet_opt
  set_node-Does x entry own t k = record {
    keeps = record {
      full = set_node-size x entry t ∙ k.full;
      nodes = set_node-Derived p c s h x entry t own k.nodes;
      ratchets =
          λ type i r e. k.ratchets type i r (rw (set_node-sender_ratchets x entry t type) at e);
    };
    gives = λ a e. tt;
  }

  pub set_ratchet-Does :
      (i : LeafNodeIndex) (type : SecretType) (root : Secret) (r : SenderRatchet)
      → ratchet_root p c s h type i ≡ ok root
      → IsRatchet root r
      → Does Rooted Nothing (set_ratchet i type r)
  set_ratchet-Does i type root r known is t k = record {
    keeps = record {
      full = set_ratchet-size i type r t ∙ k.full;
      nodes = λ x n e. k.nodes x n (sym (set_ratchet-get_node i type r t x) ∙ e);
      ratchets = λ type' i' r' e. elim (set_ratchet-written i type r t type' i' r' e) [
        | inl (same_type, same_index, same) ↦
            (root, rw (← same_type, ← same_index) known, rw (← same) is)
        | inr old ↦ k.ratchets type' i' r' old
      ];
    };
    gives = λ a e. tt;
  }

  pub derive_down-Does :
      (i : ParentNodeIndex) → h ≤ 30 → i < 2 ^ h - 1 → Does Rooted Nothing (derive_down p c i)
  unfolding derive_down
  derive_down-Does i small low =
      bind-Does Rooted
        (λ found.
          (n : SecretTreeNode)
          → found ≡ some n
          → expected p c s h (TreeNodeIndex.parent i) ≡ ok n.secret)
        _ _
        (read-Does Rooted _ _ (λ t found k e n is. k.nodes (TreeNodeIndex.parent i) n (rw is at e)))
        (λ found told.
          bind-Does Rooted (λ n. expected p c s h (TreeNodeIndex.parent i) ≡ ok n.secret) _ _
            (lift-Does Rooted _ _ (λ n e. told n (ok_or-ok found library_error n e)))
            (λ n known.
              bind-Does Rooted
                (λ both.
                  (expected p c s h (left i) ≡ ok both.0)
                  × (expected p c s h (right i) ≡ ok both.1))
                _ _
                (lift-Does Rooted _ _ (λ both e.
                  children p c s h i n.secret both.0 both.1 small low known
                    (from_crypto-ok _ both e)))
                (λ both made.
                  bind-Does Rooted Nothing _ _
                    (set_node-Does (left i) (some (record { secret = both.0 }))
                      (λ m e. made.0 ∙ cc))
                    (λ u told.
                      bind-Does Rooted Nothing _ _
                        (set_node-Does (right i) (some (record { secret = both.1 }))
                          (λ m e. made.1 ∙ cc))
                        (λ u told. set_node-Does (TreeNodeIndex.parent i) none (λ m e. cc))))))

  abbrev pub Low : List ParentNodeIndex → Type 0
  Low [] = Unit {0}
  Low (i ∷ is) = (i < 2 ^ h - 1) × Low is

  pub derive_all-Does :
      (is : List ParentNodeIndex) → h ≤ 30 → Low is → Does Rooted Nothing (derive_all p c is)
  derive_all-Does [] small low = return-Does Rooted Nothing tt tt
  derive_all-Does (i ∷ is) small (first, rest) =
      bind-Does Rooted Nothing _ _ (derive_down-Does i small first)
        (λ u told. derive_all-Does is small rest)
