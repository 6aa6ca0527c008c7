-- ===== src/Proposals/Tests.antt =====
-- A queue of eight proposals. Contents, identifiers of pre-shared keys and references are numbers.
use mls4rn.Prelude.{ℕ, ◌≡◌, refl, Bool, true, false, Option, some, List, [], ◌∷◌, ok, err}
use mls4rn.Prelude.Equality.{nat_Eq, lookup, insert}
use mls4rn.TreeMath.Index.{LeafNodeIndex}
use mls4rn.Proposals.Types.{
  Proposal, ProposalOrRef, ProposalOrRefType, Sender, has_lower_priority_than,
}
use mls4rn.Proposals.Queue.{
  QueuedProposal, ProposalQueue, add, extend, empty_queue, queued_proposals, self_removal,
  duplicate_psk_id,
}
use mls4rn.Proposals.Entries.{keep_first, queued_proposals-extend}
use mls4rn.Proposals.Committed.{
  by_reference, check_id, from_proposal_and_sender, resolve, commit_loop, from_committed_proposals,
}
use mls4rn.Proposals.Valid.{IsValid, from_committed_proposals-IsValid}
use mls4rn.Proposals.Accepts.{from_committed_proposals-extend}
use mls4rn.Proposals.Filter.{Filter, start, register, sort_in, filter_loop, filter_proposals}
use mls4rn.Proposals.Chosen.{chosen}
use mls4rn.Proposals.Members.{filter_loop-chosen}
use mls4rn.Proposals.Pooled.{filter_proposals-ok}

abbrev queued : ℕ → Proposal ℕ ℕ → ℕ → QueuedProposal ℕ ℕ ℕ
queued r p i = record {
  proposal = p;
  proposal_reference = r;
  sender = Sender.member i;
  proposal_or_ref_type = ProposalOrRefType.reference;
}

-- The own leaf is 0. Member 2 updates and is then removed, member 3 is removed and leaves itself,
-- and the reference 20 comes twice.
abbrev waiting : List (QueuedProposal ℕ ℕ ℕ)
waiting =
    queued 20 (Proposal.add 7) 1
    ∷ queued 21 (Proposal.update 8) 2
    ∷ queued 22 (Proposal.remove 2) 1
    ∷ queued 23 (Proposal.remove 3) 1
    ∷ queued 24 Proposal.self_remove 3
    ∷ queued 25 (Proposal.update 9) 0
    ∷ queued 26 (Proposal.pre_shared_key 5) 1
    ∷ queued 20 (Proposal.add 7) 1
    ∷ []

abbrev hash : Proposal ℕ ℕ → Option ℕ
hash p = some 30

abbrev committed : List (ProposalOrRef ℕ ℕ ℕ)
committed =
    ProposalOrRef.reference 20
    ∷ ProposalOrRef.proposal (Proposal.pre_shared_key 6)
    ∷ ProposalOrRef.reference 26
    ∷ []

abbrev committed_proposals : List (QueuedProposal ℕ ℕ ℕ)
committed_proposals =
    queued 20 (Proposal.add 7) 1
    ∷ record (queued 30 (Proposal.pre_shared_key 6) 4) {
      proposal_or_ref_type = ProposalOrRefType.proposal;
    }
    ∷ queued 26 (Proposal.pre_shared_key 5) 1
    ∷ []

abbrev committed_queue : ProposalQueue ℕ ℕ ℕ
committed_queue = extend empty_queue committed_proposals

abbrev same_order :
    List (LeafNodeIndex × QueuedProposal ℕ ℕ ℕ) → List (LeafNodeIndex × QueuedProposal ℕ ℕ ℕ)
same_order ps = ps

abbrev filtered : Filter ℕ ℕ ℕ
filtered = record {
  adds = 20 ∷ [];
  valid_proposals = 26 ∷ [];
  proposal_pool =
      (20, queued 20 (Proposal.add 7) 1)
      ∷ (21, queued 21 (Proposal.update 8) 2)
      ∷ (22, queued 22 (Proposal.remove 2) 1)
      ∷ (23, queued 23 (Proposal.remove 3) 1)
      ∷ (24, queued 24 Proposal.self_remove 3)
      ∷ (25, queued 25 (Proposal.update 9) 0)
      ∷ (26, queued 26 (Proposal.pre_shared_key 5) 1)
      ∷ [];
  contains_own_updates = true;
  contains_external_init = false;
  member_specific_proposals =
      (2, queued 22 (Proposal.remove 2) 1) ∷ (3, queued 24 Proposal.self_remove 3) ∷ [];
}

waiting_loop : filter_loop 0 waiting start ≡ ok filtered
unfolding filter_loop sort_in register insert lookup has_lower_priority_than
waiting_loop = refl

committed_loop :
    from_committed_proposals hash committed waiting (Sender.member 4) ≡ ok committed_queue
unfolding from_committed_proposals commit_loop resolve by_reference lookup insert
    from_proposal_and_sender check_id add extend
committed_loop = refl

-- The committer may not remove itself.
own_removal :
    from_committed_proposals hash (ProposalOrRef.reference 23 ∷ []) waiting (Sender.member 3)
    ≡ err self_removal
unfolding from_committed_proposals commit_loop resolve by_reference lookup insert
own_removal = refl

second_psk :
    from_committed_proposals hash
      (ProposalOrRef.proposal (Proposal.pre_shared_key 5) ∷ committed)
      waiting
      (Sender.member 4)
    ≡ err (duplicate_psk_id 5)
unfolding from_committed_proposals commit_loop resolve by_reference lookup insert
    from_proposal_and_sender check_id
second_psk = refl

queued_proposals-extend_example :
    queued_proposals (extend empty_queue waiting) ≡ keep_first [] waiting
queued_proposals-extend_example = queued_proposals-extend waiting

from_committed_proposals-IsValid_example :
    IsValid hash (by_reference waiting []) (Sender.member 4) committed_queue
from_committed_proposals-IsValid_example =
    from_committed_proposals-IsValid hash committed waiting (Sender.member 4) committed_queue
      committed_loop

filter_loop-chosen_example : lookup 3 filtered.member_specific_proposals ≡ chosen 0 3 waiting
filter_loop-chosen_example = filter_loop-chosen 0 3 waiting filtered waiting_loop

filter_proposals-ok_example :
    (queue : ProposalQueue ℕ ℕ ℕ) × (flag : Bool) × (filter_proposals same_order waiting 0
      ≡ ok (queue, flag))
filter_proposals-ok_example =
    filter_proposals-ok same_order 0 waiting (λ P xs all. all)
      (tt, (tt, (tt, (tt, (tt, (tt, (tt, (tt, tt))))))))

known_20 : lookup 20 (by_reference waiting []) ≡ some (queued 20 (Proposal.add 7) 1)
unfolding by_reference lookup insert
known_20 = refl

known_26 : lookup 26 (by_reference waiting []) ≡ some (queued 26 (Proposal.pre_shared_key 5) 1)
unfolding by_reference lookup insert
known_26 = refl

from_committed_proposals-extend_example :
    from_committed_proposals hash committed waiting (Sender.member 4) ≡ ok committed_queue
from_committed_proposals-extend_example =
    from_committed_proposals-extend hash committed waiting (Sender.member 4) committed_proposals
      (known_20, (refl, (known_26, tt))) (refl, (refl, (refl, tt))) (refl, (refl, tt))
