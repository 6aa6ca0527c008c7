-- ===== src/Proposals/Accepts.antt =====
-- Which proposals of a received commit are accepted.
use mathlib.Core.Option
use mls4rn.Prelude.{
  ◌≡◌, refl, subst, inl, inr, Bool, true, false, Bool-cases, Option-cases, ◌||◌, Option, none, some,
  List, [], ◌∷◌, ◌++◌, ok, ◌>>=◌, All,
}
use mls4rn.Prelude.Equality.{Eq, ◌==◌, contains, Distinct, HashMap, lookup, eq_true, eq_refl}
use mls4rn.Proposals.Types.{Proposal, ProposalOrRef, ProposalOrRefType, Sender}
use mls4rn.Proposals.Queue.{QueuedProposal, ProposalStore, ProposalQueue, empty_queue, extend, add}
use mls4rn.Proposals.Committed.{
  removes_committer, as_psk, check_id, by_reference, from_proposal_and_sender, resolve, commit_loop,
  from_committed_proposals,
}
use mls4rn.Proposals.Valid.{id_list, psk_ids}

module _ {PskId : Type 0} ⦃psk_eq : Eq PskId⦄ where
  -- No identifier twice, and none of those seen.
  abbrev Fresh : List PskId → List PskId → Type 0
  Fresh seen [] = Unit
  Fresh seen (k ∷ ks) = (contains seen k ≡ false) × Fresh (k ∷ seen) ks

  true_if_equal :
      (k j : PskId) (ks : List PskId) → (k == j) ≡ true → (k == j || contains ks j) ≡ true
  true_if_equal k j ks e = rw e refl

  in_tail :
      (k j : PskId) (ks : List PskId) → contains ks j ≡ true → (k == j || contains ks j) ≡ true
  in_tail k j ks e = elim (Bool-cases (k == j)) [
    | inl same ↦ rw same refl
    | inr other ↦ rw (other, e) refl
  ]

  apart :
      (k j : PskId) (ks : List PskId)
      → contains ks k ≡ false
      → contains ks j ≡ true
      → (k == j) ≡ false
  apart k j ks new old = elim (Bool-cases (k == j)) [
    | inl same ↦ let e = eq_true k j same in absurd (clash (contains ks j) (rw e at new) old)
    | inr other ↦ other
  ]
    where
      clash : (b : Bool) → b ≡ false → b ≡ true → ⊥
      clash b x y = cc

  Distinct-Fresh :
      (ids seen : List PskId)
      → Distinct ids
      → ((k : PskId) → contains ids k ≡ true → contains seen k ≡ false)
      → Fresh seen ids
  Distinct-Fresh [] seen d new = tt
  Distinct-Fresh (k ∷ ks) seen d new = (
    new k (true_if_equal k k ks (eq_refl k)),
    Distinct-Fresh ks (k ∷ seen) d.1
        (λ j old. rw (apart k j ks d.0 old) (new j (in_tail k j ks old))),
  )

-- None of the proposals removes the committer.
abbrev pub AllStay :
    {Content PskId Ref : Type 0} → Sender → List (QueuedProposal Content PskId Ref) → Type 0
AllStay sender qs = All (λ q. removes_committer q.proposal sender ≡ false) qs

module _ {Content PskId Ref : Type 0} ⦃ref_eq : Eq Ref⦄ ⦃psk_eq : Eq PskId⦄
    (raw_ref : Proposal Content PskId → Option Ref)
    (known : HashMap Ref (QueuedProposal Content PskId Ref)) (sender : Sender) where
  abbrev by_value : Proposal Content PskId → Ref → QueuedProposal Content PskId Ref
  by_value p r = record {
    proposal = p;
    proposal_reference = r;
    sender = sender;
    proposal_or_ref_type = ProposalOrRefType.proposal;
  }

  -- What is committed by value is from the committer, what is committed by reference is known.
  abbrev pub named : ProposalOrRef Content PskId Ref → Option (QueuedProposal Content PskId Ref)
  named (ProposalOrRef.proposal p) = Option.map (by_value p) (raw_ref p)
  named (ProposalOrRef.reference r) = lookup r known

  abbrev pub AllNamed :
      List (ProposalOrRef Content PskId Ref) → List (QueuedProposal Content PskId Ref) → Type 0
  AllNamed [] [] = Unit
  AllNamed (c ∷ cs) (q ∷ qs) = (named c ≡ some q) × AllNamed cs qs
  AllNamed _ _ = ⊥

  resolve-by_value :
      (p : Proposal Content PskId) (r : Ref) (seen seen' : List PskId)
      → raw_ref p ≡ some r
      → removes_committer p sender ≡ false
      → check_id (as_psk p) seen ≡ ok seen'
      → resolve raw_ref known sender (ProposalOrRef.proposal p) seen ≡ ok (by_value p r, seen')
  unfolding resolve from_proposal_and_sender
  resolve-by_value p r seen seen' hashed stays checked =
      rw (resolve, stays, checked, ◌>>=◌, from_proposal_and_sender, hashed) refl

  resolve-by_reference :
      (r : Ref) (q : QueuedProposal Content PskId Ref) (seen seen' : List PskId)
      → lookup r known ≡ some q
      → removes_committer q.proposal sender ≡ false
      → check_id (as_psk q.proposal) seen ≡ ok seen'
      → resolve raw_ref known sender (ProposalOrRef.reference r) seen ≡ ok (q, seen')
  unfolding resolve
  resolve-by_reference r q seen seen' found stays checked =
      rw (resolve, found, stays, checked, ◌>>=◌) refl

  resolve-named :
      (c : ProposalOrRef Content PskId Ref) (q : QueuedProposal Content PskId Ref)
      (seen seen' : List PskId)
      → named c ≡ some q
      → removes_committer q.proposal sender ≡ false
      → check_id (as_psk q.proposal) seen ≡ ok seen'
      → resolve raw_ref known sender c seen ≡ ok (q, seen')
  resolve-named (ProposalOrRef.reference r) q seen seen' is = resolve-by_reference r q seen seen' is
  resolve-named (ProposalOrRef.proposal p) q seen seen' is = elim (Option-cases (raw_ref p)) [
    | inl failed ↦ let no : none ≡ some q = (rw failed at is) in cc
    | inr (r, hashed) ↦
        let here : some (by_value p r) ≡ some q = (rw hashed at is) in
        let same : by_value p r ≡ q = cc in
        subst
          (λ (x : QueuedProposal Content PskId Ref).
            removes_committer x.proposal sender ≡ false
            → check_id (as_psk x.proposal) seen ≡ ok seen'
            → resolve raw_ref known sender (ProposalOrRef.proposal p) seen ≡ ok (x, seen'))
          same (resolve-by_value p r seen seen' hashed)
  ]

  -- The identifiers seen after one more proposal.
  seen_after :
      (psk : Option PskId) (ids seen : List PskId)
      → Fresh seen (id_list psk ++ ids)
      → (seen' : List PskId) × (check_id psk seen ≡ ok seen') × Fresh seen' ids
  unfolding check_id
  seen_after none ids seen fresh = (seen, refl, fresh)
  seen_after (some k) ids seen fresh = (k ∷ seen, rw (check_id, fresh.0) refl, fresh.1)

  commit_loop-named :
      (cs : List (ProposalOrRef Content PskId Ref)) (qs : List (QueuedProposal Content PskId Ref))
      (seen : List PskId) (queue : ProposalQueue Content PskId Ref)
      → AllNamed cs qs
      → AllStay sender qs
      → Fresh seen (psk_ids qs)
      → commit_loop raw_ref known sender cs seen queue ≡ ok (extend queue qs)
  unfolding commit_loop extend
  commit_loop-named [] [] seen queue is stays fresh = refl
  commit_loop-named (c ∷ cs) [] seen queue is stays fresh = absurd is
  commit_loop-named [] (q ∷ qs) seen queue is stays fresh = absurd is
  commit_loop-named (c ∷ cs) (q ∷ qs) seen queue is stays fresh =
      let (seen', checked, fresh') = seen_after (as_psk q.proposal) (psk_ids qs) seen fresh in
      rw (resolve-named c q seen seen' is.0 stays.0 checked, ◌>>=◌)
        (commit_loop-named cs qs seen' (add queue q) is.1 stays.1 fresh')

module _ {Content PskId Ref : Type 0} ⦃ref_eq : Eq Ref⦄ ⦃psk_eq : Eq PskId⦄ where
  -- A received commit whose proposals can all be named, of which none removes the committer and no two
  -- name the same pre-shared key, gives the queue of its proposals in their order.
  pub from_committed_proposals-extend :
      (raw_ref : Proposal Content PskId → Option Ref)
      (committed : List (ProposalOrRef Content PskId Ref)) (store : ProposalStore Content PskId Ref)
      (sender : Sender) (qs : List (QueuedProposal Content PskId Ref))
      → AllNamed raw_ref (by_reference store []) sender committed qs
      → AllStay sender qs
      → Distinct (psk_ids qs)
      → from_committed_proposals raw_ref committed store sender ≡ ok (extend empty_queue qs)
  unfolding from_committed_proposals
  from_committed_proposals-extend raw_ref committed store sender qs is stays distinct =
      commit_loop-named raw_ref (by_reference store []) sender committed qs [] empty_queue is stays
        (Distinct-Fresh (psk_ids qs) [] distinct (λ k old. refl))
