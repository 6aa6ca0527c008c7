-- ===== src/Proposals/Filter.antt =====
-- proposal_store.rs: `ProposalQueue::filter_proposals`, the choice of the proposals for a commit.
use mls4rn.Prelude.{
  Bool, true, false, if◌then◌else◌, none, some, List, [], ◌∷◌, ◌++◌, Result, ok, err, ◌>>=◌,
}
use mls4rn.Prelude.Equality.{Eq, ◌==◌, contains, HashMap, lookup, insert, nat_Eq}
use mls4rn.TreeMath.Index.{LeafNodeIndex}
use mls4rn.Proposals.Types.{Proposal, Sender, has_lower_priority_than}
use mls4rn.Proposals.Queue.{QueuedProposal, ProposalQueue, empty_queue, add}

pub data ProposalQueueError : Type 0 where
  library_error proposal_not_found : ProposalQueueError
  update_from_external_sender self_remove_from_non_member : ProposalQueueError

-- `OrderedProposalRefs`: its set holds the references of its list.
abbrev pub OrderedProposalRefs : Type 0 → Type 0
OrderedProposalRefs Ref = List Ref

abbrev pub add_ref :
    {Ref : Type 0} ⦃e : Eq Ref⦄ → Ref → OrderedProposalRefs Ref → OrderedProposalRefs Ref
add_ref r rs = if contains rs r then rs else rs ++ r ∷ []

-- The variables of `filter_proposals`.
pub record Filter (Content PskId Ref : Type 0) : Type 0 where
  pub adds : OrderedProposalRefs Ref
  pub valid_proposals : OrderedProposalRefs Ref
  pub proposal_pool : HashMap Ref (QueuedProposal Content PskId Ref)
  pub contains_own_updates : Bool
  pub contains_external_init : Bool
  pub member_specific_proposals : HashMap LeafNodeIndex (QueuedProposal Content PskId Ref)

module _ {Content PskId Ref : Type 0} where
  abbrev pub start : Filter Content PskId Ref
  start = record {
    adds = [];
    valid_proposals = [];
    proposal_pool = [];
    contains_own_updates = false;
    contains_external_init = false;
    member_specific_proposals = [];
  }

  -- `register_member_specific_proposal`
  unfoldable pub register :
      LeafNodeIndex
      → QueuedProposal Content PskId Ref
      → HashMap LeafNodeIndex (QueuedProposal Content PskId Ref)
      → HashMap LeafNodeIndex (QueuedProposal Content PskId Ref)
  register member p m = elim (lookup member m) [
    | none ↦ insert member p m
    | some old ↦ if has_lower_priority_than old.proposal p.proposal then insert member p m else m
  ]

  abbrev pub registered :
      LeafNodeIndex
      → QueuedProposal Content PskId Ref
      → Filter Content PskId Ref
      → Filter Content PskId Ref
  registered member p s = record s {
    member_specific_proposals = register member p s.member_specific_proposals;
  }

  -- The arms for Update and SelfRemove, by the sender.
  abbrev pub update_from :
      LeafNodeIndex
      → Sender
      → QueuedProposal Content PskId Ref
      → Filter Content PskId Ref
      → Result ProposalQueueError (Filter Content PskId Ref)
  update_from own (Sender.member i) p s =
      ok (if i == own then record s { contains_own_updates = true } else registered i p s)
  update_from own _ p s = err update_from_external_sender

  abbrev pub self_remove_of :
      Sender
      → QueuedProposal Content PskId Ref
      → Filter Content PskId Ref
      → Result ProposalQueueError (Filter Content PskId Ref)
  self_remove_of (Sender.member i) p s = ok (registered i p s)
  self_remove_of _ p s = err self_remove_from_non_member

module _ {Content PskId Ref : Type 0} ⦃e : Eq Ref⦄ where
  abbrev pub with_valid :
      QueuedProposal Content PskId Ref → Filter Content PskId Ref → Filter Content PskId Ref
  with_valid p s = record s { valid_proposals = add_ref p.proposal_reference s.valid_proposals }

  -- The `match` on the queued proposal.
  unfoldable pub sort_in :
      LeafNodeIndex
      → Proposal Content PskId
      → QueuedProposal Content PskId Ref
      → Filter Content PskId Ref
      → Result ProposalQueueError (Filter Content PskId Ref)
  sort_in own (Proposal.add c) p s = ok record s { adds = add_ref p.proposal_reference s.adds }
  sort_in own (Proposal.update c) p s = update_from own p.sender p s
  sort_in own (Proposal.remove i) p s = ok (registered i p s)
  sort_in own (Proposal.pre_shared_key psk) p s = ok (with_valid p s)
  sort_in own (Proposal.re_init c) p s = ok s
  sort_in own (Proposal.external_init c) p s = ok (
      if s.contains_external_init
      then s
      else record (with_valid p s) { contains_external_init = true })
  sort_in own (Proposal.group_context_extensions c) p s = ok (with_valid p s)
  sort_in own Proposal.self_remove p s = self_remove_of p.sender p s
  sort_in own (Proposal.custom code c) p s = ok (with_valid p s)

  abbrev pub pooled :
      QueuedProposal Content PskId Ref → Filter Content PskId Ref → Filter Content PskId Ref
  pooled p s = record s { proposal_pool = insert p.proposal_reference p s.proposal_pool }

  unfoldable pub filter_loop :
      LeafNodeIndex
      → List (QueuedProposal Content PskId Ref)
      → Filter Content PskId Ref
      → Result ProposalQueueError (Filter Content PskId Ref)
  filter_loop own [] s = ok s
  filter_loop own (p ∷ ps) s = sort_in own p.proposal p (pooled p s) >>= λ s'. filter_loop own ps s'

  abbrev pub add_all_refs :
      List (LeafNodeIndex × QueuedProposal Content PskId Ref)
      → OrderedProposalRefs Ref
      → OrderedProposalRefs Ref
  add_all_refs [] rs = rs
  add_all_refs ((i, p) ∷ ps) rs = add_all_refs ps (add_ref p.proposal_reference rs)

  -- The last loop of `filter_proposals`.
  unfoldable pub build :
      HashMap Ref (QueuedProposal Content PskId Ref)
      → List Ref
      → ProposalQueue Content PskId Ref
      → Result ProposalQueueError (ProposalQueue Content PskId Ref)
  build pool [] queue = ok queue
  build pool (r ∷ rs) queue = elim (lookup r pool) [
    | none ↦ err proposal_not_found
    | some p ↦ build pool rs (add queue p)
  ]

  -- `arrange` is the order in which the hash map yields its values.
  unfoldable pub filter_proposals :
      (List (LeafNodeIndex × QueuedProposal Content PskId Ref)
        → List (LeafNodeIndex × QueuedProposal Content PskId Ref))
      → List (QueuedProposal Content PskId Ref)
      → LeafNodeIndex
      → Result ProposalQueueError (ProposalQueue Content PskId Ref × Bool)
  filter_proposals arrange proposals own = filter_loop own proposals start >>= λ s.
      build s.proposal_pool
        (s.adds ++ add_all_refs (arrange s.member_specific_proposals) s.valid_proposals) empty_queue
      >>= λ queue. ok (queue, s.contains_own_updates)
