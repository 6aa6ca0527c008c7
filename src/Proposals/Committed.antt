-- ===== src/Proposals/Committed.antt =====
-- proposal_store.rs: the queue for the proposals of a received commit.

use mls4rn.Prelude.{
  Bool, false, if◌then◌else◌, Option, none, some, List, [], ◌∷◌, Result, ok, err, ◌>>=◌,
}
use mls4rn.Prelude.Equality.{Eq, ◌==◌, contains, HashMap, lookup, insert, nat_Eq}
use mls4rn.TreeMath.Index.{LeafNodeIndex}
use mls4rn.Proposals.Types.{
  Proposal, ProposalOrRef, ProposalOrRefType, Sender, as_member, as_remove,
}
use mls4rn.Proposals.Queue.{
  QueuedProposal, ProposalStore, ProposalQueue, FromCommittedProposalsError, self_removal,
  proposal_not_found, duplicate_psk_id, library_error, empty_queue, add,
}

-- A Remove of the committer, if the committer is a member.
abbrev pub is_same_leaf : Option LeafNodeIndex → Option LeafNodeIndex → Bool
is_same_leaf (some i) (some j) = i == j
is_same_leaf _ _ = false

module _ {Content PskId : Type 0} where
  abbrev pub removes_committer : Proposal Content PskId → Sender → Bool
  removes_committer p sender = is_same_leaf (as_remove p) (as_member sender)

  -- The identifier of a PreSharedKey proposal.
  abbrev pub as_psk : Proposal Content PskId → Option PskId
  as_psk (Proposal.pre_shared_key psk) = some psk
  as_psk _ = none

module _ {PskId : Type 0} ⦃psk_eq : Eq PskId⦄ where
  unfoldable pub check_id :
      Option PskId → List PskId → Result (FromCommittedProposalsError PskId) (List PskId)
  check_id (some psk) seen =
      if contains seen psk then err (duplicate_psk_id psk) else ok (psk ∷ seen)
  check_id none seen = ok seen

  -- `PskProposalDuplicateChecker::check`, on the identifiers seen so far.
  abbrev pub check :
      {Content : Type 0}
      → Proposal Content PskId
      → List PskId
      → Result (FromCommittedProposalsError PskId) (List PskId)
  check p seen = check_id (as_psk p) seen

module _ {Content PskId Ref : Type 0} ⦃ref_eq : Eq Ref⦄ where
  -- The map from references to the proposals of the store.
  unfoldable pub by_reference :
      ProposalStore Content PskId Ref
      → HashMap Ref (QueuedProposal Content PskId Ref)
      → HashMap Ref (QueuedProposal Content PskId Ref)
  by_reference [] m = m
  by_reference (p ∷ store) m = by_reference store (insert p.proposal_reference p m)

-- `raw_ref` is `ProposalRef::from_raw_proposal`: a hash, or `none` if the provider fails.
module _ {Content PskId Ref : Type 0} ⦃ref_eq : Eq Ref⦄ ⦃psk_eq : Eq PskId⦄
    (raw_ref : Proposal Content PskId → Option Ref) where
  -- `QueuedProposal::from_proposal_and_sender`
  unfoldable pub from_proposal_and_sender :
      Proposal Content PskId
      → Sender
      → Result (FromCommittedProposalsError PskId) (QueuedProposal Content PskId Ref)
  from_proposal_and_sender p sender = elim (raw_ref p) [
    | none ↦ err library_error
    | some r ↦ ok record {
      proposal = p;
      proposal_reference = r;
      sender = sender;
      proposal_or_ref_type = ProposalOrRefType.proposal;
    }
  ]

  module _ (known : HashMap Ref (QueuedProposal Content PskId Ref)) (sender : Sender) where
    -- The `match` on one committed proposal: the queued proposal, and the identifiers seen.
    unfoldable pub resolve :
        ProposalOrRef Content PskId Ref
        → List PskId
        → Result (FromCommittedProposalsError PskId) (QueuedProposal Content PskId Ref × List PskId)
    resolve (ProposalOrRef.proposal p) seen =
        if removes_committer p sender
        then err self_removal
        else check p seen >>= λ seen'. from_proposal_and_sender p sender >>= λ q. ok (q, seen')
    resolve (ProposalOrRef.reference r) seen = elim (lookup r known) [
      | none ↦ err proposal_not_found
      | some q ↦
          if removes_committer q.proposal sender
          then err self_removal
          else check q.proposal seen >>= λ seen'. ok (q, seen')
    ]

    unfoldable pub commit_loop :
        List (ProposalOrRef Content PskId Ref)
        → List PskId
        → ProposalQueue Content PskId Ref
        → Result (FromCommittedProposalsError PskId) (ProposalQueue Content PskId Ref)
    commit_loop [] seen queue = ok queue
    commit_loop (c ∷ committed) seen queue =
        resolve c seen >>= λ out. commit_loop committed out.1 (add queue out.0)

  unfoldable pub from_committed_proposals :
      List (ProposalOrRef Content PskId Ref)
      → ProposalStore Content PskId Ref
      → Sender
      → Result (FromCommittedProposalsError PskId) (ProposalQueue Content PskId Ref)
  from_committed_proposals committed store sender =
      commit_loop (by_reference store []) sender committed [] empty_queue
