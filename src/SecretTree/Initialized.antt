-- ===== src/SecretTree/Initialized.antt =====
-- The initialization of a leaf's ratchets keeps every secret and every ratchet where it belongs.
use mls4rn.Prelude.{
  ℕ, zero, suc, ◌+◌, ◌/◌, ◌^◌, ◌≤◌, ◌<◌, ◌≡◌, refl, ◌∙◌, ap, inl, inr, Bool, true, false,
  Bool-cases, leb, leb→lt, ◌==◌, Option, none, some, List, [], ◌∷◌, arith,
}
use mls4rn.Prelude.{Result, ok, err}
use mls4rn.Prelude.Powers.{two_pow_suc, two_pow_pos}
use mls4rn.Prelude.Actions.{read}
use mls4rn.Prelude.Outcomes.{Does, bind-Does, lift-Does, read-Does, return-Does}
use mls4rn.Ciphersuite.{Ciphersuite}
use mls4rn.Secrets.{CryptoError, Secret, Provider}
use mls4rn.SenderRatchet.{SecretTreeError, library_error, panicked, SenderRatchet}
use mls4rn.SenderRatchet.Chain.{secret_at}
use mls4rn.SenderRatchet.Window.{decryption_ratchet-Window}
use mls4rn.SecretTree.{
  SecretTree, SecretTreeNode, handshake_secret, application_secret, get_node, ratchet_opt, stop_at,
  empty_nodes, and_also, are_initialized, derive_leaf, new_ratchet, fill_ratchets,
  initialize_sender_ratchets, ensure,
}
use mls4rn.SecretTree.Derived.{ratchet_root, expected}
use mls4rn.SecretTree.Rooted.{
  Rooted, IsRatchet, Nothing, Low, set_node-Does, set_ratchet-Does, derive_all-Does, from_crypto-ok,
  ok_or-ok,
}
use mls4rn.TreeMath.Index.{TreeNodeIndex, ParentNodeIndex, LeafNodeIndex}
use mls4rn.TreeMath.Size.{leaf_count}
use mls4rn.TreeMath.Paths.{direct_path}
use mls4rn.TreeMath.Shape.{node-suc}
use mls4rn.TreeMath.Inside.{Inside, Inside-node, Inside-parent}
use mls4rn.TreeMath.DirectPath.{ancestors, direct_path-ancestors}

module _ (p : Provider) (c : Ciphersuite) (s : Secret) (h : ℕ) where
  ancestors-Low : (d k j : ℕ) → k + d ≡ h → Inside h k j → Low p c s h (ancestors d k j)
  unfolding ancestors
  ancestors-Low zero k j e inside = tt
  ancestors-Low (suc d) k j e inside =
      let above : Inside h (suc k) (j / 2) = Inside-parent h k j (omega (arith, e)) inside in
      (
        omega (arith, Inside-node h (suc k) (j / 2) above, node-suc k (j / 2), two_pow_suc h),
        ancestors-Low d (suc k) (j / 2) (omega (arith, e)) above,
      )

  stop_at-Low :
      (found : Result SecretTreeError (Option SecretTreeNode)) (pushed out : List ParentNodeIndex)
      (rest : Result SecretTreeError (List ParentNodeIndex))
      → Low p c s h pushed
      → ((l : List ParentNodeIndex) → rest ≡ ok l → Low p c s h l)
      → stop_at p c found pushed rest ≡ ok out
      → Low p c s h out
  stop_at-Low (ok (some n)) pushed out rest low later e =
      let same : pushed ≡ out = cc in rw same at low
  stop_at-Low (ok none) pushed out rest low later e = later out e
  stop_at-Low (err x) pushed out rest low later e = cc

  empty_nodes-Low :
      (t : SecretTree) (path pushed out : List ParentNodeIndex)
      → Low p c s h path
      → Low p c s h pushed
      → empty_nodes p c t path pushed ≡ ok out
      → Low p c s h out
  empty_nodes-Low t [] pushed out lows low e = let same : pushed ≡ out = cc in rw same at low
  empty_nodes-Low t (i ∷ is) pushed out (first, lows) low e =
      stop_at-Low (get_node t (TreeNodeIndex.parent i)) (i ∷ pushed) out
        (empty_nodes p c t is (i ∷ pushed)) (first, low)
        (λ l e'. empty_nodes-Low t is (i ∷ pushed) l lows (first, low) e') e

  derive_leaf-Does :
      (i : LeafNodeIndex) (found : Option SecretTreeNode)
      → h ≤ 30
      → i < 2 ^ h
      → Does (Rooted p c s h) (Nothing p c s h) (derive_leaf p c i found)
  derive_leaf-Does i (some n) small b = return-Does (Rooted p c s h) (Nothing p c s h) tt tt
  derive_leaf-Does i none small b =
      bind-Does (Rooted p c s h) (Low p c s h) _ _
        (read-Does (Rooted p c s h) (Low p c s h) _ (λ t path k e.
          let found : direct_path i t.size ≡ some path =
            ok_or-ok (direct_path i t.size) panicked path e in
          let known : direct_path i t.size ≡ some (ancestors h 0 i) =
            ap (direct_path i) k.full ∙ direct_path-ancestors h small i b in
          let same : ancestors h 0 i ≡ path = cc in
          rw same at (ancestors-Low h 0 i (omega arith) (h, omega arith, b))))
        (λ path low.
          bind-Does (Rooted p c s h) (Low p c s h) _ _
            (read-Does (Rooted p c s h) (Low p c s h) _
              (λ t out k e. empty_nodes-Low t path [] out low tt e))
            (λ out low. derive_all-Does p c s h out small low))

  new_ratchet-IsRatchet :
      (own : Bool) (root : Secret) → IsRatchet p c s h root (new_ratchet p c own root)
  unfolding secret_at
  new_ratchet-IsRatchet true root = record { at_secret = refl; word = omega arith }
  new_ratchet-IsRatchet false root = decryption_ratchet-Window p c root

  abbrev Kept : SecretTree → Type 0
  Kept = Rooted p c s h

  abbrev leaf_secret : LeafNodeIndex → Result CryptoError Secret
  leaf_secret i = expected p c s h (TreeNodeIndex.leaf i)

  fill_ratchets-Does :
      (i : LeafNodeIndex) (ready : Bool)
      → h ≤ 30
      → i < 2 ^ h
      → Does (Rooted p c s h) (Nothing p c s h) (fill_ratchets p c i ready)
  unfolding ratchet_root
  fill_ratchets-Does i true small b = return-Does (Rooted p c s h) (Nothing p c s h) tt tt
  fill_ratchets-Does i false small b =
      bind-Does Kept (λ leaf. Unit {0}) _ _
        (read-Does Kept (λ leaf. Unit {0}) (λ t. get_node t (TreeNodeIndex.leaf i)) (λ t a k e. tt))
        (λ leaf told.
          bind-Does Kept (Nothing p c s h) _ _ (derive_leaf-Does i leaf small b) (λ u told.
            bind-Does Kept
              (λ found. (n : SecretTreeNode) → found ≡ some n → leaf_secret i ≡ ok n.secret) _ _
              (read-Does Kept _ (λ t. get_node t (TreeNodeIndex.leaf i))
                (λ t found k e n is. k.nodes (TreeNodeIndex.leaf i) n (e ∙ ap ok is)))
              (λ found told.
                bind-Does Kept (λ n. leaf_secret i ≡ ok n.secret) _ _
                  (lift-Does Kept _ _ (λ n e. told n (ok_or-ok found library_error n e)))
                  (λ n known.
                    bind-Does Kept (λ root. ratchet_root p c s h handshake_secret i ≡ ok root) _ _
                      (lift-Does Kept _ _ (λ root e. rw known (from_crypto-ok _ root e)))
                      (λ first is_first.
                        bind-Does Kept (λ root. ratchet_root p c s h application_secret i ≡ ok root)
                          _ _ (lift-Does Kept _ _ (λ root e. rw known (from_crypto-ok _ root e)))
                          (λ second is_second.
                            bind-Does Kept (λ own. Unit {0}) _ _
                              (read-Does Kept (λ own. Unit {0}) (λ t. ok (i == t.own_index))
                                (λ t a k e. tt))
                              (λ own told.
                                bind-Does Kept (Nothing p c s h) _ _
                                  (set_ratchet-Does p c s h i handshake_secret first
                                    (new_ratchet p c own first) is_first
                                    (new_ratchet-IsRatchet own first))
                                  (λ u told.
                                    bind-Does Kept (Nothing p c s h) _ _
                                      (set_ratchet-Does p c s h i application_secret second
                                        (new_ratchet p c own second) is_second
                                        (new_ratchet-IsRatchet own second))
                                      (λ u told.
                                        set_node-Does p c s h (TreeNodeIndex.leaf i) none
                                          (λ m e. cc))))))))))

  initialize-Does :
      (i : LeafNodeIndex)
      → h ≤ 30
      → Does (Rooted p c s h) (Nothing p c s h) (initialize_sender_ratchets p c i)
  unfolding initialize_sender_ratchets
  initialize-Does i small t k = elim (Bool-cases (leb (leaf_count t.size) i)) [
    | inl out ↦ rw out (record { keeps = k; gives = λ u e. tt })
    | inr in_tree ↦
        let b : i < 2 ^ h =
          omega
            (arith, leb→lt (leaf_count t.size) i in_tree, k.full, two_pow_suc h, two_pow_pos h) in
        rw in_tree (
          bind-Does Kept (λ ready. Unit {0}) (are_initialized p c i) (fill_ratchets p c i)
            (λ t k. record { keeps = are_initialized-same i t k; gives = λ a e. tt })
            (λ ready told. fill_ratchets-Does i ready small b) t k)
  ]
    where
      are_initialized-same :
          (i : LeafNodeIndex) (t : SecretTree) → Kept t → Kept (are_initialized p c i t).0
      are_initialized-same i t k =
          (bind-Does Kept (λ first. Unit {0}) (read (ratchet_opt i handshake_secret))
            (λ first. read (λ t. and_also p c first (ratchet_opt i application_secret t)))
            (read-Does Kept (λ first. Unit {0}) _ (λ t a k e. tt))
            (λ first told. read-Does Kept (λ ready. Unit {0}) _ (λ t a k e. tt)) t k).keeps

  pub ensure-Does :
      (i : LeafNodeIndex) (found : Option SenderRatchet)
      → h ≤ 30
      → Does (Rooted p c s h) (Nothing p c s h) (ensure p c i found)
  ensure-Does i (some r) small = return-Does Kept (Nothing p c s h) tt tt
  ensure-Does i none small = initialize-Does i small
