-- ===== src/Proposals/Queue.antt =====
-- proposal_store.rs: the store of proposals, and the queue of those that a commit covers. A reference
-- to a proposal is a hash value, of which only the equality is used.

use mathlib.Core.Option
use mls4rn.Prelude.{Bool, true, false, if◌then◌else◌, Option, none, some, List, [], ◌∷◌, ◌++◌, map}
use mls4rn.Prelude.Equality.{Eq, ◌==◌, HashMap, lookup, insert, nat_Eq}
use mls4rn.TreeMath.Index.{LeafNodeIndex}
use mls4rn.Proposals.Types.{
  ProposalType, Proposal, ProposalOrRefType, ProposalOrRef, Sender, is_type,
}

pub record QueuedProposal (Content PskId Ref : Type 0) : Type 0 where
  pub proposal : Proposal Content PskId
  pub proposal_reference : Ref
  pub sender : Sender
  pub proposal_or_ref_type : ProposalOrRefType

pub record SelfRemoveInStore (Ref : Type 0) : Type 0 where
  pub sender : LeafNodeIndex
  pub proposal_ref : Ref

-- `ProposalStore`, a struct with the one field `queued_proposals`.
abbrev pub ProposalStore : Type 0 → Type 0 → Type 0 → Type 0
ProposalStore Content PskId Ref = List (QueuedProposal Content PskId Ref)

pub record ProposalQueue (Content PskId Ref : Type 0) : Type 0 where
  pub proposal_references : List Ref
  pub queued_proposals : HashMap Ref (QueuedProposal Content PskId Ref)

pub data FromCommittedProposalsError (PskId : Type 0) : Type 0 where
  library_error proposal_not_found self_removal : FromCommittedProposalsError PskId
  duplicate_psk_id : PskId → FromCommittedProposalsError PskId

abbrev pub filter_map : {A B : Type 0} → (A → Option B) → List A → List B
filter_map f [] = []
filter_map f (x ∷ xs) = elim (f x) [ some y ↦ y ∷ filter_map f xs | none ↦ filter_map f xs ]

abbrev pub filter : {A : Type 0} → (A → Bool) → List A → List A
filter keep [] = []
filter keep (r ∷ rs) = let rest = filter keep rs in if keep r then r ∷ rest else rest

module _ {Content PskId Ref : Type 0} where
  -- ProposalStore

  abbrev pub store_add :
      QueuedProposal Content PskId Ref
      → ProposalStore Content PskId Ref
      → ProposalStore Content PskId Ref
  store_add p store = store ++ p ∷ []

  -- What `self_removes` takes from a stored proposal.
  abbrev pub self_remove_from :
      Ref → Proposal Content PskId → Sender → Option (SelfRemoveInStore Ref)
  self_remove_from r Proposal.self_remove (Sender.member i) =
      some record { sender = i; proposal_ref = r }
  self_remove_from r p s = none

  abbrev pub as_self_remove : QueuedProposal Content PskId Ref → Option (SelfRemoveInStore Ref)
  as_self_remove p = self_remove_from p.proposal_reference p.proposal p.sender

  unfoldable pub self_removes : ProposalStore Content PskId Ref → List (SelfRemoveInStore Ref)
  self_removes store = filter_map as_self_remove store

module _ {Content PskId Ref : Type 0} ⦃e : Eq Ref⦄ where
  -- `position` and `remove` of the proposal with the reference; `none` if there is none.
  unfoldable pub store_remove :
      Ref → ProposalStore Content PskId Ref → Option (ProposalStore Content PskId Ref)
  store_remove r [] = none
  store_remove r (p ∷ store) =
      if p.proposal_reference == r then some store else Option.map (◌∷◌ p) (store_remove r store)

  -- ProposalQueue

  abbrev pub empty_queue : ProposalQueue Content PskId Ref
  empty_queue = record { proposal_references = []; queued_proposals = [] }

  abbrev pub is_empty : ProposalQueue Content PskId Ref → Bool
  is_empty q = elim q.proposal_references [ [] ↦ true | r ∷ rs ↦ false ]

  unfoldable pub get :
      ProposalQueue Content PskId Ref → Ref → Option (QueuedProposal Content PskId Ref)
  get q r = lookup r q.queued_proposals

  -- Only an entry that is vacant is filled.
  unfoldable pub add :
      ProposalQueue Content PskId Ref
      → QueuedProposal Content PskId Ref
      → ProposalQueue Content PskId Ref
  add q p = elim (lookup p.proposal_reference q.queued_proposals) [
    | some old ↦ q
    | none ↦ record {
      proposal_references = q.proposal_references ++ p.proposal_reference ∷ [];
      queued_proposals = insert p.proposal_reference p q.queued_proposals;
    }
  ]

  -- `extend`, and `from_iter` from the empty queue.
  unfoldable pub extend :
      ProposalQueue Content PskId Ref
      → List (QueuedProposal Content PskId Ref)
      → ProposalQueue Content PskId Ref
  extend q [] = q
  extend q (p ∷ ps) = extend (add q p) ps

  unfoldable pub queued_proposals :
      ProposalQueue Content PskId Ref → List (QueuedProposal Content PskId Ref)
  queued_proposals q = filter_map (get q) q.proposal_references

  abbrev pub has_type : ProposalQueue Content PskId Ref → ProposalType → Ref → Bool
  has_type q t r = elim (lookup r q.queued_proposals) [
    | some p ↦ is_type p.proposal t
    | none ↦ false
  ]

  unfoldable pub filtered_by_type :
      ProposalQueue Content PskId Ref → ProposalType → List (QueuedProposal Content PskId Ref)
  filtered_by_type q t = filter_map (get q) (filter (has_type q t) q.proposal_references)

  -- The iterators over the queued proposals of one kind: what they show of a proposal.
  unfoldable pub by_kind :
      {A : Type 0}
      → (Proposal Content PskId → Option A)
      → ProposalQueue Content PskId Ref
      → List (A × Sender)
  by_kind kind q =
      filter_map (λ p. Option.map (λ a. (a, p.sender)) (kind p.proposal)) (queued_proposals q)

  -- `ProposalOrRef` for a queued proposal.
  abbrev pub by_value_or_ref : QueuedProposal Content PskId Ref → ProposalOrRef Content PskId Ref
  by_value_or_ref p = elim p.proposal_or_ref_type [
    | ProposalOrRefType.proposal ↦ ProposalOrRef.proposal p.proposal
    | ProposalOrRefType.reference ↦ ProposalOrRef.reference p.proposal_reference
  ]

  unfoldable pub commit_list :
      ProposalQueue Content PskId Ref → List (ProposalOrRef Content PskId Ref)
  commit_list q = map by_value_or_ref (queued_proposals q)
