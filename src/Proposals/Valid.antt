-- ===== src/Proposals/Valid.antt =====
-- What a commit that is accepted does not contain.
use mathlib.Core.List.{append-nil, append_assoc}
use mls4rn.Prelude.{
  All-append, ◌≡◌, refl, sym, ◌∙◌, ap, subst, ◌⊎◌, inl, inr, Bool, true, false, Bool-cases,
  Option-cases, if◌then◌else◌, Option, none, some, List, [], ◌∷◌, ◌++◌, ◌||◌, Result, Result-cases,
  ok, err, ◌>>=◌, IfOk, All,
}
use mls4rn.Prelude.Equality.{
  Eq, ◌==◌, contains, Distinct, contains-append, Distinct-append, HashMap, lookup, nat_Eq,
}
use mls4rn.Proposals.Types.{Proposal, ProposalOrRef, ProposalOrRefType, Sender}
use mls4rn.Proposals.Queue.{QueuedProposal, ProposalStore, ProposalQueue, queued_proposals}
use mls4rn.Proposals.Entries.{
  refs, queue_of, add-queue_of, DistinctRefs, DistinctRefs-append, queued_proposals-queue_of,
}
use mls4rn.Proposals.Committed.{
  removes_committer, as_psk, check, check_id, by_reference, from_proposal_and_sender, resolve,
  commit_loop, from_committed_proposals,
}

abbrev pub id_list : {A : Type 0} → Option A → List A
id_list none = []
id_list (some a) = a ∷ []

module _ {Content PskId Ref : Type 0} where
  -- The identifiers of the pre-shared keys in a list of proposals.
  abbrev pub psk_ids : List (QueuedProposal Content PskId Ref) → List PskId
  psk_ids [] = []
  psk_ids (p ∷ ps) = id_list (as_psk p.proposal) ++ psk_ids ps

  psk_ids-append :
      (ps : List (QueuedProposal Content PskId Ref)) (p : QueuedProposal Content PskId Ref)
      → psk_ids (ps ++ p ∷ []) ≡ psk_ids ps ++ id_list (as_psk p.proposal)
  psk_ids-append [] p = append-nil (id_list (as_psk p.proposal))
  psk_ids-append (q ∷ ps) p =
      ap (◌++◌ (id_list (as_psk q.proposal))) (psk_ids-append ps p)
      ∙ sym (append_assoc (id_list (as_psk q.proposal)) (psk_ids ps) (id_list (as_psk p.proposal)))

no_right : (t : Bool) → (t || false) ≡ true → t ≡ true
no_right true h = refl
no_right false h = h

ok_injective : {A E : Type 0} {x y : A} → ◌≡◌ {A = Result E A} (ok x) (ok y) → x ≡ y
ok_injective h = cc

err-ok : {A E : Type 0} {x : E} {y : A} → ◌≡◌ {A = Result E A} (err x) (ok y) → ⊥
err-ok h = cc

true-false : true ≡ false → ⊥
true-false h = cc

module _ {PskId : Type 0} ⦃psk_eq : Eq PskId⦄ where
  -- Identifiers `ids` without repetition that have all been seen.
  pub record Seen (ids seen : List PskId) : Type 0 where
    pub distinct : Distinct ids
    pub all_seen : (k : PskId) → contains ids k ≡ true → contains seen k ≡ true

  unseen :
      (ids seen : List PskId) (k : PskId)
      → Seen ids seen
      → contains seen k ≡ false
      → contains ids k ≡ false
  unseen ids seen k s new = elim (Bool-cases (contains ids k)) [
    | inl old ↦ absurd (true-false (sym (s.all_seen k old) ∙ new))
    | inr none_yet ↦ none_yet
  ]

  -- What the check lets through is new, and is remembered; a proposal that is dropped later may be
  -- remembered all the same.
  check-Seen :
      (o : Option PskId) (ids seen seen' : List PskId)
      → check_id o seen ≡ ok seen'
      → Seen ids seen
      → Seen (ids ++ id_list o) seen' × Seen ids seen'
  unfolding check_id
  check-Seen none ids seen seen' e s =
      let same : seen ≡ seen' = cc in
      let here = subst (Seen ids) same s in
      (subst (λ l. Seen l seen') (sym (append-nil ids)) here, here)
  check-Seen (some k) ids seen seen' e s = elim (Bool-cases (contains seen k)) [
    | inl old ↦ absurd (err-ok (rw old at e))
    | inr new ↦
        let same : k ∷ seen ≡ seen' = ok_injective (rw new at e) in
        (
          subst (Seen (ids ++ k ∷ [])) same record {
            distinct = Distinct-append ids k (unseen ids seen k s new) s.distinct;
            all_seen = λ j h. either j (k == j) refl (sym (contains-append ids k j) ∙ h);
          },
          subst (Seen ids) same record {
            distinct = s.distinct;
            all_seen = λ j h. later (k == j) (contains seen j) (s.all_seen j h);
          },
        )
  ]
    where
      later : (t u : Bool) → u ≡ true → (t || u) ≡ true
      later true u h = refl
      later false u h = h

      either :
          (j : PskId) (t : Bool)
          → (k == j) ≡ t
          → (contains ids j || k == j) ≡ true
          → (k == j || contains seen j) ≡ true
      either j true h whole = rw h refl
      either j false h whole = rw h (s.all_seen j (no_right (contains ids j) (rw h at whole)))

module _ {Content PskId Ref : Type 0} ⦃ref_eq : Eq Ref⦄ ⦃psk_eq : Eq PskId⦄
    (raw_ref : Proposal Content PskId → Option Ref)
    (known : HashMap Ref (QueuedProposal Content PskId Ref)) (sender : Sender) where
  -- Where a queued proposal of the commit is from: by value from the sender of the commit, or a
  -- known one under a reference.
  abbrev pub From : QueuedProposal Content PskId Ref → Type 0
  From p =
      ((p.sender ≡ sender) × (p.proposal_or_ref_type ≡ ProposalOrRefType.proposal))
      ⊎ ((r : Ref) × (lookup r known ≡ some p))

  pub record Accepted (p : QueuedProposal Content PskId Ref) : Type 0 where
    pub keeps_committer : removes_committer p.proposal sender ≡ false
    pub from : From p

  record Resolved (seen : List PskId) (out : QueuedProposal Content PskId Ref × List PskId)
      : Type 0 where
    pub accepted : Accepted out.0
    pub checked : check out.0.proposal seen ≡ ok out.1

  resolve-Resolved :
      (c : ProposalOrRef Content PskId Ref) (seen : List PskId)
      → IfOk (Resolved seen) (resolve raw_ref known sender c seen)
  unfolding resolve from_proposal_and_sender
  resolve-Resolved (ProposalOrRef.proposal p) seen =
      elim (Bool-cases (removes_committer p sender)) [
        | inl self ↦ rw self tt
        | inr other ↦ elim (Result-cases (check p seen)) [
          | inr (failure, e) ↦ rw (other, e, ◌>>=◌) tt
          | inl (seen', e) ↦ elim (Option-cases (raw_ref p)) [
            | inl none_given ↦ rw (other, e, ◌>>=◌, none_given, from_proposal_and_sender) tt
            | inr (r, given) ↦
                rw (other, e, ◌>>=◌, given, from_proposal_and_sender)
                  record {
                    accepted = record { keeps_committer = other; from = inl (refl, refl) };
                    checked = e;
                  }
          ]
        ]
      ]
  resolve-Resolved (ProposalOrRef.reference r) seen = elim (Option-cases (lookup r known)) [
    | inl unknown ↦ rw (unknown, resolve) tt
    | inr (p, found) ↦ elim (Bool-cases (removes_committer p.proposal sender)) [
      | inl self ↦ rw (found, resolve, self) tt
      | inr other ↦ elim (Result-cases (check p.proposal seen)) [
        | inr (failure, e) ↦ rw (found, resolve, other, e, ◌>>=◌) tt
        | inl (seen', e) ↦
            rw (found, resolve, other, e, ◌>>=◌)
              record {
                accepted = record { keeps_committer = other; from = inr (r, found) };
                checked = e;
              }
      ]
    ]
  ]

  -- The queue so far.
  record Queued (acc : List (QueuedProposal Content PskId Ref)) (seen : List PskId) : Type 0 where
    pub distinct : DistinctRefs acc
    pub accepted : All Accepted acc
    pub ids : Seen (psk_ids acc) seen

  Queued-next :
      (acc : List (QueuedProposal Content PskId Ref)) (seen : List PskId)
      (out : QueuedProposal Content PskId Ref × List PskId)
      → Queued acc seen
      → Resolved seen out
      → Queued
          (if contains (refs acc) out.0.proposal_reference then acc else acc ++ out.0 ∷ [])
          out.1
  Queued-next acc seen (p, seen') q r =
      let (with_p, without_p) =
        check-Seen (as_psk p.proposal) (psk_ids acc) seen seen' r.checked q.ids in
      elim (Bool-cases (contains (refs acc) p.proposal_reference)) [
        | inl old ↦ rw old record { distinct = q.distinct; accepted = q.accepted; ids = without_p }
        | inr new ↦ rw new record {
          distinct = DistinctRefs-append acc p new q.distinct;
          accepted = All-append Accepted acc (p ∷ []) q.accepted (r.accepted, tt);
          ids = subst (λ l. Seen l seen') (sym (psk_ids-append acc p)) with_p;
        }
      ]

  -- The queue that a commit gives.
  pub record IsValid (queue : ProposalQueue Content PskId Ref) : Type 0 where
    pub accepted : All Accepted (queued_proposals queue)
    pub psk_once : Distinct (psk_ids (queued_proposals queue))

  commit_loop-IsValid :
      (committed : List (ProposalOrRef Content PskId Ref)) (seen : List PskId)
      (acc : List (QueuedProposal Content PskId Ref))
      → Queued acc seen
      → IfOk IsValid (commit_loop raw_ref known sender committed seen (queue_of acc))
  unfolding commit_loop
  commit_loop-IsValid [] seen acc q =
      let same = queued_proposals-queue_of acc q.distinct in
      record { accepted = rw same q.accepted; psk_once = rw same q.ids.distinct }
  commit_loop-IsValid (c ∷ committed) seen acc q =
      elim (Result-cases (resolve raw_ref known sender c seen)) [
        | inr (failure, e) ↦ rw (e, ◌>>=◌) tt
        | inl (out, e) ↦
            let resolved : Resolved seen out =
              subst (IfOk (Resolved seen)) e (resolve-Resolved c seen) in
            rw (e, ◌>>=◌, add-queue_of acc out.0)
              (commit_loop-IsValid committed out.1
                (if contains (refs acc) out.0.proposal_reference then acc else acc ++ out.0 ∷ [])
                (Queued-next acc seen out q resolved))
      ]

module _ {Content PskId Ref : Type 0} ⦃ref_eq : Eq Ref⦄ ⦃psk_eq : Eq PskId⦄ where
  -- If a queue is made of the proposals of a commit, then none of its proposals removes the
  -- committer, each is from the committer by value or is one of the store, and no two of them name
  -- the same pre-shared key.
  pub from_committed_proposals-IsValid :
      (raw_ref : Proposal Content PskId → Option Ref)
      (committed : List (ProposalOrRef Content PskId Ref)) (store : ProposalStore Content PskId Ref)
      (sender : Sender) (queue : ProposalQueue Content PskId Ref)
      → from_committed_proposals raw_ref committed store sender ≡ ok queue
      → IsValid raw_ref (by_reference store []) sender queue
  unfolding from_committed_proposals
  from_committed_proposals-IsValid raw_ref committed store sender queue e =
      let known = by_reference store [] in
      let start : Queued raw_ref known sender [] [] = record {
        distinct = tt;
        accepted = tt;
        ids = record { distinct = tt; all_seen = λ k h. h };
      } in
      subst (IfOk (IsValid raw_ref known sender)) e
        (commit_loop-IsValid raw_ref known sender committed [] [] start)
