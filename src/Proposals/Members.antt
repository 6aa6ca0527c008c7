-- ===== src/Proposals/Members.antt =====
-- What the loop of the filter has for each member at its end.
use mls4rn.Prelude.{
  ◌≡◌, refl, subst, inl, inr, Bool, true, false, Bool-cases, if◌then◌else◌, ◌&&◌, not, Option, none,
  some, List, [], ◌∷◌, Result-cases, ok, ◌>>=◌, IfOk, arith,
}
use mls4rn.Prelude.Equality.{Eq, ◌==◌, lookup, nat_Eq}
use mls4rn.TreeMath.Index.{LeafNodeIndex}
use mls4rn.Proposals.Types.{Proposal, Sender}
use mls4rn.Proposals.Queue.{QueuedProposal}
use mls4rn.Proposals.Filter.{
  Filter, start, registered, sort_in, filter_loop, pooled, update_from, self_remove_of,
}
use mls4rn.Proposals.Chosen.{
  is_from, self_removes_member, removes_member, updates_member, last_that, chosen, Found, if_found,
  Found-self_remove, Found-remove, Found-update,
}

none-some : {A : Type 0} {a : A} → none ≡ some a → ⊥
none-some x = cc

module _ (own m : LeafNodeIndex) where
  own_member : (i : LeafNodeIndex) → (i == own) ≡ true → (i == m && not (m == own)) ≡ false
  own_member i h = ground arith

  other_member : (i : LeafNodeIndex) → (i == own) ≡ false → (i == m && not (m == own)) ≡ (i == m)
  other_member i h = ground arith

module _ {Content PskId Ref : Type 0} ⦃e : Eq Ref⦄ (own m : LeafNodeIndex) where
  -- A proposal of each kind, after the ones found before.
  abbrev next_self_remove :
      Proposal Content PskId
      → QueuedProposal Content PskId Ref
      → Option (QueuedProposal Content PskId Ref)
      → Option (QueuedProposal Content PskId Ref)
  next_self_remove q p a = if_found (self_removes_member m q p.sender) p a

  abbrev next_remove :
      Proposal Content PskId
      → QueuedProposal Content PskId Ref
      → Option (QueuedProposal Content PskId Ref)
      → Option (QueuedProposal Content PskId Ref)
  next_remove q p b = if_found (removes_member m q) p b

  abbrev next_update :
      Proposal Content PskId
      → QueuedProposal Content PskId Ref
      → Option (QueuedProposal Content PskId Ref)
      → Option (QueuedProposal Content PskId Ref)
  next_update q p c = if_found (updates_member m q p.sender && not (m == own)) p c

  own_update :
      (a b c : Option (QueuedProposal Content PskId Ref)) (s : Filter Content PskId Ref)
      (p : QueuedProposal Content PskId Ref) (x : Content) (i : LeafNodeIndex)
      → p.proposal ≡ Proposal.update x
      → Found m a b c s
      → (t : Bool) → (i == own) ≡ t
      → Found m a b
          (if_found (i == m && not (m == own)) p c)
          (if t then record s { contains_own_updates = true } else registered i p s)
  own_update a b c s p x i q f true at =
      rw (own_member own m i at) record { kinds = f.kinds; at_member = f.at_member }
  own_update a b c s p x i q f false at =
      rw (other_member own m i at) (Found-update m a b c s f p i x q (i == m) refl)

  update_from-Found :
      (a b c : Option (QueuedProposal Content PskId Ref)) (s : Filter Content PskId Ref)
      (p : QueuedProposal Content PskId Ref) (x : Content) (sender : Sender)
      → p.proposal ≡ Proposal.update x
      → Found m a b c s
      → IfOk
          (Found m a b (if_found (is_from m sender && not (m == own)) p c))
          (update_from own sender p s)
  update_from-Found a b c s p x (Sender.member i) h f = own_update a b c s p x i h f (i == own) refl
  update_from-Found a b c s p x (Sender.external i) h f = tt
  update_from-Found a b c s p x Sender.new_member_proposal h f = tt
  update_from-Found a b c s p x Sender.new_member_commit h f = tt

  self_remove_of-Found :
      (a b c : Option (QueuedProposal Content PskId Ref)) (s : Filter Content PskId Ref)
      (p : QueuedProposal Content PskId Ref) (sender : Sender)
      → p.proposal ≡ Proposal.self_remove
      → Found m a b c s
      → IfOk (Found m (if_found (is_from m sender) p a) b c) (self_remove_of sender p s)
  self_remove_of-Found a b c s p (Sender.member i) h f =
      Found-self_remove m a b c s f p i h (i == m) refl
  self_remove_of-Found a b c s p (Sender.external i) h f = tt
  self_remove_of-Found a b c s p Sender.new_member_proposal h f = tt
  self_remove_of-Found a b c s p Sender.new_member_commit h f = tt

  sort_in-Found :
      (a b c : Option (QueuedProposal Content PskId Ref)) (s : Filter Content PskId Ref)
      (p : QueuedProposal Content PskId Ref) (q : Proposal Content PskId)
      → p.proposal ≡ q
      → Found m a b c s
      → IfOk
          (Found m (next_self_remove q p a) (next_remove q p b) (next_update q p c))
          (sort_in own q p s)
  unfolding sort_in
  sort_in-Found a b c s p (Proposal.add x) h f = record { kinds = f.kinds; at_member = f.at_member }
  sort_in-Found a b c s p (Proposal.update x) h f = update_from-Found a b c s p x p.sender h f
  sort_in-Found a b c s p (Proposal.remove i) h f = Found-remove m a b c s f p i h (i == m) refl
  sort_in-Found a b c s p (Proposal.pre_shared_key psk) h f = record {
    kinds = f.kinds;
    at_member = f.at_member;
  }
  sort_in-Found a b c s p (Proposal.re_init x) h f = f
  sort_in-Found a b c s p (Proposal.external_init x) h f =
      elim (Bool-cases s.contains_external_init) [
        | inl old ↦ rw old record { kinds = f.kinds; at_member = f.at_member }
        | inr new ↦ rw new record { kinds = f.kinds; at_member = f.at_member }
      ]
  sort_in-Found a b c s p (Proposal.group_context_extensions x) h f = record {
    kinds = f.kinds;
    at_member = f.at_member;
  }
  sort_in-Found a b c s p Proposal.self_remove h f = self_remove_of-Found a b c s p p.sender h f
  sort_in-Found a b c s p (Proposal.custom code x) h f = record {
    kinds = f.kinds;
    at_member = f.at_member;
  }

  filter_loop-Found :
      (ps : List (QueuedProposal Content PskId Ref))
      (a b c : Option (QueuedProposal Content PskId Ref)) (s : Filter Content PskId Ref)
      → Found m a b c s
      → IfOk
          (Found m
            (last_that (λ p. self_removes_member m p.proposal p.sender) a ps)
            (last_that (λ p. removes_member m p.proposal) b ps)
            (last_that (λ p. updates_member m p.proposal p.sender && not (m == own)) c ps))
          (filter_loop own ps s)
  unfolding filter_loop last_that
  filter_loop-Found [] a b c s f = f
  filter_loop-Found (p ∷ ps) a b c s f =
      let next =
        sort_in-Found a b c (pooled p s) p p.proposal refl
          record { kinds = f.kinds; at_member = f.at_member } in
      elim (Result-cases (sort_in own p.proposal p (pooled p s))) [
        | inr (failure, stop) ↦ rw (stop, ◌>>=◌) tt
        | inl (s', go) ↦
            let there : Found m (next_self_remove p.proposal p a) (next_remove p.proposal p b)
                (next_update p.proposal p c) s' =
              subst
                (IfOk (
                  Found m (next_self_remove p.proposal p a) (next_remove p.proposal p b)
                    (next_update p.proposal p c)))
                go next in
            rw (go, ◌>>=◌)
              (filter_loop-Found ps (next_self_remove p.proposal p a) (next_remove p.proposal p b)
                (next_update p.proposal p c) s' there)
      ]

module _ {Content PskId Ref : Type 0} ⦃e : Eq Ref⦄ where
  -- If the loop over the proposals does not fail, it has for each member the last SelfRemove of that
  -- member, or else the last Remove of the member, or else the last Update from it, and no Update
  -- from the own leaf.
  pub filter_loop-chosen :
      (own m : LeafNodeIndex) (ps : List (QueuedProposal Content PskId Ref))
      (s : Filter Content PskId Ref)
      → filter_loop own ps start ≡ ok s
      → lookup m s.member_specific_proposals ≡ chosen own m ps
  unfolding chosen
  filter_loop-chosen own m ps s h =
      let f = subst (IfOk _) h (filter_loop-Found own m ps none none none start nothing) in
      f.at_member
    where
      nothing : Found {Content = Content} {PskId = PskId} {Ref = Ref} m none none none start
      nothing = record {
        kinds = record {
          is_self_remove = λ p x. cc;
          is_remove = λ p x. absurd (none-some x);
          is_update = λ p x. absurd (none-some x);
        };
        at_member = unfold lookup in refl;
      }
