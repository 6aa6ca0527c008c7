-- ===== src/Proposals/Pooled.antt =====
-- `filter_proposals` finds every proposal that it chooses.
use mls4rn.Prelude.{
  All-append, ◌≡◌, refl, inl, inr, Bool, true, false, Bool-cases, if◌then◌else◌, List, [], ◌∷◌,
  Result, ok, ◌>>=◌, All,
}
use mls4rn.Prelude.Equality.{Eq, ◌==◌, HashMap, nat_Eq}
use mls4rn.TreeMath.Index.{LeafNodeIndex}
use mls4rn.Proposals.Types.{Proposal, Sender}
use mls4rn.Proposals.Queue.{QueuedProposal, ProposalQueue, empty_queue, add}
use mls4rn.Proposals.Filter.{
  Filter, ProposalQueueError, start, add_ref, update_from, self_remove_of, with_valid, sort_in,
  pooled, filter_loop, add_all_refs, build, filter_proposals,
}
use mls4rn.Proposals.Pool.{
  InPool, EntryInPool, here, Ready, pooled-Ready, add_ref-InPool, with_valid-Ready,
  registered-Ready,
}

-- Updates and SelfRemoves come from members.
abbrev IsFromMember : Sender → Type 0
IsFromMember (Sender.member i) = Unit
IsFromMember _ = ⊥

module _ {Content PskId : Type 0} where
  abbrev SentRight : Proposal Content PskId → Sender → Type 0
  SentRight (Proposal.update c) sender = IsFromMember sender
  SentRight Proposal.self_remove sender = IsFromMember sender
  SentRight _ sender = Unit

module _ {Content PskId Ref : Type 0} ⦃e : Eq Ref⦄ where
  -- A step does not fail and leaves a state in which every reference is in the pool.
  abbrev Goes : Result ProposalQueueError (Filter Content PskId Ref) → Type 0
  Goes r = (s : Filter Content PskId Ref) × ((r ≡ ok s) × Ready s)

  update_from-Goes :
      (own : LeafNodeIndex) (sender : Sender) (p : QueuedProposal Content PskId Ref)
      (s : Filter Content PskId Ref)
      → IsFromMember sender
      → InPool s.proposal_pool p.proposal_reference
      → Ready s
      → Goes (update_from own sender p s)
  update_from-Goes own (Sender.member k) p s from i r = elim (Bool-cases (k == own)) [
    | inl mine ↦ rw mine (_, (refl, record { adds = r.adds; valid = r.valid; members = r.members }))
    | inr other ↦ rw other (_, (refl, registered-Ready s k p i r))
  ]
  update_from-Goes own (Sender.external k) p s from i r = absurd from
  update_from-Goes own Sender.new_member_proposal p s from i r = absurd from
  update_from-Goes own Sender.new_member_commit p s from i r = absurd from

  self_remove_of-Goes :
      (sender : Sender) (p : QueuedProposal Content PskId Ref) (s : Filter Content PskId Ref)
      → IsFromMember sender
      → InPool s.proposal_pool p.proposal_reference
      → Ready s
      → Goes (self_remove_of sender p s)
  self_remove_of-Goes (Sender.member k) p s from i r = (_, (refl, registered-Ready s k p i r))
  self_remove_of-Goes (Sender.external k) p s from i r = absurd from
  self_remove_of-Goes Sender.new_member_proposal p s from i r = absurd from
  self_remove_of-Goes Sender.new_member_commit p s from i r = absurd from

  either-Goes :
      (b : Bool) (s t : Filter Content PskId Ref)
      → Ready s
      → Ready t
      → Goes (ok (if b then s else t))
  either-Goes true s t r r' = (s, (refl, r))
  either-Goes false s t r r' = (t, (refl, r'))

  sort_in-Goes :
      (own : LeafNodeIndex) (q : Proposal Content PskId) (p : QueuedProposal Content PskId Ref)
      (s : Filter Content PskId Ref)
      → SentRight q p.sender
      → InPool s.proposal_pool p.proposal_reference
      → Ready s
      → Goes (sort_in own q p s)
  unfolding sort_in
  sort_in-Goes own (Proposal.add c) p s from i r = (
    _,
    (
      refl,
      record {
        adds = add_ref-InPool s.proposal_pool p.proposal_reference s.adds i r.adds;
        valid = r.valid;
        members = r.members;
      },
    ),
  )
  sort_in-Goes own (Proposal.update c) p s from i r = update_from-Goes own p.sender p s from i r
  sort_in-Goes own (Proposal.remove k) p s from i r = (_, (refl, registered-Ready s k p i r))
  sort_in-Goes own (Proposal.pre_shared_key psk) p s from i r =
      (_, (refl, with_valid-Ready s p i r))
  sort_in-Goes own (Proposal.re_init c) p s from i r = (s, (refl, r))
  sort_in-Goes own (Proposal.external_init c) p s from i r =
      either-Goes s.contains_external_init s
        (record (with_valid p s) { contains_external_init = true }) r
        (let v = with_valid-Ready s p i r in
          record { adds = v.adds; valid = v.valid; members = v.members })
  sort_in-Goes own (Proposal.group_context_extensions c) p s from i r =
      (_, (refl, with_valid-Ready s p i r))
  sort_in-Goes own Proposal.self_remove p s from i r = self_remove_of-Goes p.sender p s from i r
  sort_in-Goes own (Proposal.custom code c) p s from i r = (_, (refl, with_valid-Ready s p i r))

  abbrev AllSentRight : List (QueuedProposal Content PskId Ref) → Type 0
  AllSentRight ps = All (λ p. SentRight p.proposal p.sender) ps

  filter_loop-Goes :
      (own : LeafNodeIndex) (ps : List (QueuedProposal Content PskId Ref))
      (s : Filter Content PskId Ref)
      → AllSentRight ps
      → Ready s
      → Goes (filter_loop own ps s)
  unfolding filter_loop
  filter_loop-Goes own [] s from r = (s, (refl, r))
  filter_loop-Goes own (p ∷ ps) s from r =
      let (s', (go, r')) =
        sort_in-Goes own p.proposal p (pooled p s) from.0
          (here s.proposal_pool p p.proposal_reference) (pooled-Ready s p r) in
      rw (go, ◌>>=◌) (filter_loop-Goes own ps s' from.1 r')

  add_all_refs-InPool :
      (pool : HashMap Ref (QueuedProposal Content PskId Ref))
      (ps : List (LeafNodeIndex × QueuedProposal Content PskId Ref)) (rs : List Ref)
      → All (EntryInPool pool) ps
      → All (InPool pool) rs
      → All (InPool pool) (add_all_refs ps rs)
  add_all_refs-InPool pool [] rs all found = found
  add_all_refs-InPool pool ((k, p) ∷ ps) rs all found =
      add_all_refs-InPool pool ps (add_ref p.proposal_reference rs) all.1
        (add_ref-InPool pool p.proposal_reference rs all.0 found)

  build-ok :
      (pool : HashMap Ref (QueuedProposal Content PskId Ref)) (rs : List Ref)
      (queue : ProposalQueue Content PskId Ref)
      → All (InPool pool) rs
      → (out : ProposalQueue Content PskId Ref) × (build pool rs queue ≡ ok out)
  unfolding build
  build-ok pool [] queue all = (queue, refl)
  build-ok pool (r ∷ rs) queue all =
      let (p, found) = all.0 in rw (found, build) (build-ok pool rs (add queue p) all.1)

  -- If the hash map yields its own entries only, and every Update and SelfRemove is from a member,
  -- then the filter gives a queue: it finds every reference that it chooses.
  pub filter_proposals-ok :
      (arrange : List (LeafNodeIndex × QueuedProposal Content PskId Ref)
        → List (LeafNodeIndex × QueuedProposal Content PskId Ref))
      (own : LeafNodeIndex) (ps : List (QueuedProposal Content PskId Ref))
      → ((P : LeafNodeIndex × QueuedProposal Content PskId Ref → Type 0)
            (xs : List (LeafNodeIndex × QueuedProposal Content PskId Ref))
          → All P xs
          → All P (arrange xs))
      → AllSentRight ps
      → (queue : ProposalQueue Content PskId Ref) × (flag : Bool) × (filter_proposals arrange ps own
          ≡ ok (queue, flag))
  unfolding filter_proposals
  filter_proposals-ok arrange own ps yields from =
      let (s, (done, r)) =
        filter_loop-Goes own ps start from record { adds = tt; valid = tt; members = tt } in
      let members = yields (EntryInPool s.proposal_pool) s.member_specific_proposals r.members in
      let found =
        All-append (InPool s.proposal_pool) s.adds
          (add_all_refs (arrange s.member_specific_proposals) s.valid_proposals) r.adds
          (add_all_refs-InPool s.proposal_pool (arrange s.member_specific_proposals)
            s.valid_proposals members r.valid) in
      let (queue, built) = build-ok s.proposal_pool _ empty_queue found in
      (queue, s.contains_own_updates, rw (done, ◌>>=◌, built) refl)
