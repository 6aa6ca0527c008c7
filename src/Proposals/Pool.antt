-- ===== src/Proposals/Pool.antt =====
-- Every reference that the loop of the filter keeps is one of a proposal in its pool.
use mls4rn.Prelude.{
  All-append, ◌≡◌, refl, ◌∙◌, inl, inr, Bool-cases, Option-cases, some, List, [], ◌∷◌, All,
}
use mls4rn.Prelude.Equality.{
  Eq, ◌==◌, contains, HashMap, lookup, insert, lookup-insert, eq_refl, nat_Eq,
}
use mls4rn.TreeMath.Index.{LeafNodeIndex}
use mls4rn.Proposals.Types.{has_lower_priority_than}
use mls4rn.Proposals.Queue.{QueuedProposal}
use mls4rn.Proposals.Filter.{Filter, add_ref, register, registered, with_valid, pooled}

module _ {A : Type 0} (P Q : A → Type 0) (imp : (a : A) → P a → Q a) where
  All-imp : (xs : List A) → All P xs → All Q xs
  All-imp [] all = tt
  All-imp (x ∷ xs) all = (imp x all.0, All-imp xs all.1)

module _ {Content PskId Ref : Type 0} ⦃e : Eq Ref⦄ where
  abbrev pub InPool : HashMap Ref (QueuedProposal Content PskId Ref) → Ref → Type 0
  InPool pool r = (p : QueuedProposal Content PskId Ref) × (lookup r pool ≡ some p)

  abbrev pub EntryInPool :
      HashMap Ref (QueuedProposal Content PskId Ref)
      → LeafNodeIndex × QueuedProposal Content PskId Ref
      → Type 0
  EntryInPool pool x = InPool pool x.1.proposal_reference

  grows :
      (pool : HashMap Ref (QueuedProposal Content PskId Ref)) (p : QueuedProposal Content PskId Ref)
      (k r : Ref)
      → InPool pool r
      → InPool (insert k p pool) r
  grows pool p k r (q, found) = elim (Bool-cases (k == r)) [
    | inl same ↦ (p, lookup-insert k r p pool ∙ (rw same refl))
    | inr other ↦ (q, lookup-insert k r p pool ∙ (rw other found))
  ]

  pub here :
      (pool : HashMap Ref (QueuedProposal Content PskId Ref)) (p : QueuedProposal Content PskId Ref)
      (k : Ref)
      → InPool (insert k p pool) k
  here pool p k = (p, lookup-insert k k p pool ∙ (rw (eq_refl k) refl))

  pub record Ready (s : Filter Content PskId Ref) : Type 0 where
    pub adds : All (InPool s.proposal_pool) s.adds
    pub valid : All (InPool s.proposal_pool) s.valid_proposals
    pub members : All (EntryInPool s.proposal_pool) s.member_specific_proposals

  pub pooled-Ready :
      (s : Filter Content PskId Ref) (p : QueuedProposal Content PskId Ref)
      → Ready s
      → Ready (pooled p s)
  pooled-Ready s p r =
      let pool = s.proposal_pool in
      let pool' = insert p.proposal_reference p pool in
      let more = grows pool p p.proposal_reference in
      record {
        adds = All-imp (InPool pool) (InPool pool') more s.adds r.adds;
        valid = All-imp (InPool pool) (InPool pool') more s.valid_proposals r.valid;
        members =
            All-imp (EntryInPool pool) (EntryInPool pool') (λ x. more x.1.proposal_reference)
              s.member_specific_proposals r.members;
      }

  pub add_ref-InPool :
      (pool : HashMap Ref (QueuedProposal Content PskId Ref)) (r : Ref) (rs : List Ref)
      → InPool pool r
      → All (InPool pool) rs
      → All (InPool pool) (add_ref r rs)
  add_ref-InPool pool r rs i all = elim (Bool-cases (contains rs r)) [
    | inl old ↦ rw old all
    | inr new ↦ rw new (All-append (InPool pool) rs (r ∷ []) all (i, tt))
  ]

  insert-All :
      (pool : HashMap Ref (QueuedProposal Content PskId Ref)) (k : LeafNodeIndex)
      (p : QueuedProposal Content PskId Ref)
      (m : HashMap LeafNodeIndex (QueuedProposal Content PskId Ref))
      → InPool pool p.proposal_reference
      → All (EntryInPool pool) m
      → All (EntryInPool pool) (insert k p m)
  unfolding insert
  insert-All pool k p [] i all = (i, tt)
  insert-All pool k p ((j, q) ∷ m) i all = elim (Bool-cases (j == k)) [
    | inl same ↦ rw same (i, all.1)
    | inr other ↦ rw other (all.0, insert-All pool k p m i all.1)
  ]

  register-All :
      (pool : HashMap Ref (QueuedProposal Content PskId Ref)) (k : LeafNodeIndex)
      (p : QueuedProposal Content PskId Ref)
      (m : HashMap LeafNodeIndex (QueuedProposal Content PskId Ref))
      → InPool pool p.proposal_reference
      → All (EntryInPool pool) m
      → All (EntryInPool pool) (register k p m)
  unfolding register
  register-All pool k p m i all = elim (Option-cases (lookup k m)) [
    | inl absent ↦ rw (absent, register) (insert-All pool k p m i all)
    | inr (old, present) ↦ elim (Bool-cases (has_lower_priority_than old.proposal p.proposal)) [
      | inl lower ↦ rw (present, register, lower) (insert-All pool k p m i all)
      | inr higher ↦ rw (present, register, higher) all
    ]
  ]

  pub with_valid-Ready :
      (s : Filter Content PskId Ref) (p : QueuedProposal Content PskId Ref)
      → InPool s.proposal_pool p.proposal_reference
      → Ready s
      → Ready (with_valid p s)
  with_valid-Ready s p i r = record {
    adds = r.adds;
    valid = add_ref-InPool s.proposal_pool p.proposal_reference s.valid_proposals i r.valid;
    members = r.members;
  }

  pub registered-Ready :
      (s : Filter Content PskId Ref) (k : LeafNodeIndex) (p : QueuedProposal Content PskId Ref)
      → InPool s.proposal_pool p.proposal_reference
      → Ready s
      → Ready (registered k p s)
  registered-Ready s k p i r = record {
    adds = r.adds;
    valid = r.valid;
    members = register-All s.proposal_pool k p s.member_specific_proposals i r.members;
  }
