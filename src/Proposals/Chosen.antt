-- ===== src/Proposals/Chosen.antt =====
-- The proposal that the filter chooses for a member.
use mls4rn.Prelude.{
  ℕ, ◌≡◌, refl, sym, ◌∙◌, ap, subst, inl, inr, Bool, true, false, Bool-cases, Option-cases,
  if◌then◌else◌, ◌&&◌, not, Option, none, some, List, [], ◌∷◌,
}
use mls4rn.Prelude.Equality.{◌==◌, HashMap, lookup, lookup-insert, nat_Eq, eq_true}
use mls4rn.TreeMath.Index.{LeafNodeIndex}
use mls4rn.Proposals.Types.{Proposal, Sender, has_lower_priority_than}
use mls4rn.Proposals.Queue.{QueuedProposal}
use mls4rn.Proposals.Filter.{Filter, register, registered}

-- Whether a sender is the member `m`.
abbrev pub is_from : LeafNodeIndex → Sender → Bool
is_from m (Sender.member i) = i == m
is_from m _ = false

module _ {Content PskId : Type 0} where
  abbrev pub self_removes_member : LeafNodeIndex → Proposal Content PskId → Sender → Bool
  self_removes_member m Proposal.self_remove sender = is_from m sender
  self_removes_member m _ sender = false

  abbrev pub removes_member : LeafNodeIndex → Proposal Content PskId → Bool
  removes_member m (Proposal.remove i) = i == m
  removes_member m _ = false

  abbrev pub updates_member : LeafNodeIndex → Proposal Content PskId → Sender → Bool
  updates_member m (Proposal.update c) sender = is_from m sender
  updates_member m _ sender = false

  lower_than_self_remove :
      (o : Proposal Content PskId) → has_lower_priority_than o Proposal.self_remove ≡ true
  unfolding has_lower_priority_than
  lower_than_self_remove (Proposal.add c) = refl
  lower_than_self_remove (Proposal.update c) = refl
  lower_than_self_remove (Proposal.remove i) = refl
  lower_than_self_remove (Proposal.pre_shared_key psk) = refl
  lower_than_self_remove (Proposal.re_init c) = refl
  lower_than_self_remove (Proposal.external_init c) = refl
  lower_than_self_remove (Proposal.group_context_extensions c) = refl
  lower_than_self_remove Proposal.self_remove = refl
  lower_than_self_remove (Proposal.custom code c) = refl

module _ {A : Type 0} where
  -- The last one that passes the test, or else `found`.
  unfoldable pub last_that : (A → Bool) → Option A → List A → Option A
  last_that test found [] = found
  last_that test found (x ∷ xs) = last_that test (if test x then some x else found) xs

  abbrev pub or_else : Option A → Option A → Option A
  or_else (some a) o = some a
  or_else none o = o

module _ {Content PskId Ref : Type 0} where
  -- The last SelfRemove of the member, or else the last Remove, or else the last Update, unless the
  -- member is the own one, whose Updates are left out.
  unfoldable pub chosen :
      LeafNodeIndex
      → LeafNodeIndex
      → List (QueuedProposal Content PskId Ref)
      → Option (QueuedProposal Content PskId Ref)
  chosen own m ps = or_else (last_that (λ p. self_removes_member m p.proposal p.sender) none ps) (
      or_else (last_that (λ p. removes_member m p.proposal) none ps)
        (last_that (λ p. updates_member m p.proposal p.sender && not (m == own)) none ps))

  -- The kinds of three proposals that may have been found for a member.
  pub record Kinds (a b c : Option (QueuedProposal Content PskId Ref)) : Type 0 where
    pub is_self_remove :
        (p : QueuedProposal Content PskId Ref) → a ≡ some p → p.proposal ≡ Proposal.self_remove
    pub is_remove :
        (p : QueuedProposal Content PskId Ref)
        → b ≡ some p
        → (i : LeafNodeIndex) × (p.proposal ≡ Proposal.remove i)
    pub is_update :
        (p : QueuedProposal Content PskId Ref)
        → c ≡ some p
        → (x : Content) × (p.proposal ≡ Proposal.update x)

  -- What a member has after a proposal is registered for it.
  abbrev better :
      Option (QueuedProposal Content PskId Ref)
      → QueuedProposal Content PskId Ref
      → Option (QueuedProposal Content PskId Ref)
  better none p = some p
  better (some old) p = if has_lower_priority_than old.proposal p.proposal then some p else some old

  lookup-register :
      (i m : LeafNodeIndex) (p : QueuedProposal Content PskId Ref)
      (t : HashMap LeafNodeIndex (QueuedProposal Content PskId Ref))
      → lookup m (register i p t) ≡ (if i == m then better (lookup m t) p else lookup m t)
  unfolding register
  lookup-register i m p t = elim (Option-cases (lookup i t)) [
    | inl absent ↦
        rw (absent, register) (lookup-insert i m p t ∙ same (i == m) refl none absent (some p) refl)
    | inr (old, present) ↦ elim (Bool-cases (has_lower_priority_than old.proposal p.proposal)) [
      | inl lower ↦
          rw (present, register, lower)
            (lookup-insert i m p t ∙ same (i == m) refl (some old) present (some p) (rw lower refl))
      | inr not_lower ↦
          rw (present, register, not_lower) (stays (i == m) refl old present not_lower)
    ]
  ]
    where
      same :
          (b : Bool)
          → (i == m) ≡ b
          → (o : Option (QueuedProposal Content PskId Ref)) → lookup i t ≡ o
          → (r : Option (QueuedProposal Content PskId Ref)) → better o p ≡ r
          → (if b then r else lookup m t) ≡ (if b then better (lookup m t) p else lookup m t)
      same true e o at_i r gives =
          let at_m : lookup m t ≡ o = ap (λ (k : ℕ). lookup k t) (sym (eq_true i m e)) ∙ at_i in
          rw at_m (sym gives)
      same false e o at_i r gives = refl

      stays :
          (b : Bool)
          → (i == m) ≡ b
          → (old : QueuedProposal Content PskId Ref) → lookup i t ≡ some old
          → has_lower_priority_than old.proposal p.proposal ≡ false
          → lookup m t ≡ (if b then better (lookup m t) p else lookup m t)
      stays true e old at_i lower =
          let at_m : lookup m t ≡ some old =
            ap (λ (k : ℕ). lookup k t) (sym (eq_true i m e)) ∙ at_i in
          rw (at_m, lower) refl
      stays false e old at_i lower = refl

  better-self_remove :
      (o : Option (QueuedProposal Content PskId Ref)) (p : QueuedProposal Content PskId Ref)
      → p.proposal ≡ Proposal.self_remove
      → better o p ≡ some p
  better-self_remove none p e = refl
  better-self_remove (some old) p e = rw (e, lower_than_self_remove old.proposal) refl

  module _ (p : QueuedProposal Content PskId Ref) where
    better-remove :
        (a b c : Option (QueuedProposal Content PskId Ref)) (i : LeafNodeIndex)
        → Kinds a b c
        → p.proposal ≡ Proposal.remove i
        → better (or_else a (or_else b c)) p ≡ or_else a (some p)
    unfolding has_lower_priority_than
    better-remove (some x) b c i k e = rw (k.is_self_remove x refl, e) refl
    better-remove none (some x) c i k e = rw ((k.is_remove x refl).1, e) refl
    better-remove none none (some x) i k e = rw ((k.is_update x refl).1, e) refl
    better-remove none none none i k e = refl

    better-update :
        (a b c : Option (QueuedProposal Content PskId Ref)) (x : Content)
        → Kinds a b c
        → p.proposal ≡ Proposal.update x
        → better (or_else a (or_else b c)) p ≡ or_else a (or_else b (some p))
    unfolding has_lower_priority_than
    better-update (some x) b c y k e = rw (k.is_self_remove x refl, e) refl
    better-update none (some x) c y k e = rw ((k.is_remove x refl).1, e) refl
    better-update none none (some x) y k e = rw ((k.is_update x refl).1, e) refl
    better-update none none none y k e = refl

  -- The state of the loop for a member, and the three proposals found for it.
  pub record Found (m : LeafNodeIndex) (a b c : Option (QueuedProposal Content PskId Ref))
      (s : Filter Content PskId Ref) : Type 0 where
    pub kinds : Kinds a b c
    pub at_member : lookup m s.member_specific_proposals ≡ or_else a (or_else b c)

  abbrev pub if_found :
      Bool
      → QueuedProposal Content PskId Ref
      → Option (QueuedProposal Content PskId Ref)
      → Option (QueuedProposal Content PskId Ref)
  if_found t p o = if t then some p else o

  module _ (m : LeafNodeIndex) (a b c : Option (QueuedProposal Content PskId Ref))
      (s : Filter Content PskId Ref) (f : Found m a b c s) (p : QueuedProposal Content PskId Ref)
      (i : LeafNodeIndex) where
    pub Found-self_remove :
        p.proposal ≡ Proposal.self_remove
        → (t : Bool) → (i == m) ≡ t
        → Found m (if_found t p a) b c (registered i p s)
    Found-self_remove e true at = record {
      kinds = record {
        is_self_remove = λ q h.
            let same : p ≡ q = cc in
            subst (λ (r : QueuedProposal Content PskId Ref). r.proposal ≡ Proposal.self_remove) same
              e;
        is_remove = f.kinds.is_remove;
        is_update = f.kinds.is_update;
      };
      at_member =
          lookup-register i m p s.member_specific_proposals
          ∙ (rw at (better-self_remove (lookup m s.member_specific_proposals) p e));
    }
    Found-self_remove e false at = record {
      kinds = f.kinds;
      at_member = lookup-register i m p s.member_specific_proposals ∙ (rw at f.at_member);
    }

    pub Found-remove :
        p.proposal ≡ Proposal.remove i
        → (t : Bool) → (i == m) ≡ t
        → Found m a (if_found t p b) c (registered i p s)
    Found-remove e true at = record {
      kinds = record {
        is_self_remove = f.kinds.is_self_remove;
        is_remove = λ q h.
            let same : p ≡ q = cc in
            (
              i,
              subst (λ (r : QueuedProposal Content PskId Ref). r.proposal ≡ Proposal.remove i) same
                  e,
            );
        is_update = f.kinds.is_update;
      };
      at_member =
          lookup-register i m p s.member_specific_proposals
          ∙ (rw (at, f.at_member) (better-remove p a b c i f.kinds e));
    }
    Found-remove e false at = record {
      kinds = f.kinds;
      at_member = lookup-register i m p s.member_specific_proposals ∙ (rw at f.at_member);
    }

    pub Found-update :
        (x : Content)
        → p.proposal ≡ Proposal.update x
        → (t : Bool) → (i == m) ≡ t
        → Found m a b (if_found t p c) (registered i p s)
    Found-update x e true at = record {
      kinds = record {
        is_self_remove = f.kinds.is_self_remove;
        is_remove = f.kinds.is_remove;
        is_update = λ q h.
            let same : p ≡ q = cc in
            (
              x,
              subst (λ (r : QueuedProposal Content PskId Ref). r.proposal ≡ Proposal.update x) same
                  e,
            );
      };
      at_member =
          lookup-register i m p s.member_specific_proposals
          ∙ (rw (at, f.at_member) (better-update p a b c x f.kinds e));
    }
    Found-update x e false at = record {
      kinds = f.kinds;
      at_member = lookup-register i m p s.member_specific_proposals ∙ (rw at f.at_member);
    }
