-- ===== src/Proposals/Entries.antt =====
-- The queue as the list of its proposals, each reference once.

use mls4rn.Prelude.{
  ◌≡◌, refl, sym, ◌∙◌, ap, inl, inr, Bool, true, false, Bool-cases, if◌then◌else◌, ◌||◌, none, some,
  List, [], ◌∷◌, ◌++◌,
}
use mls4rn.Prelude.Equality.{Eq, ◌==◌, contains, HashMap, lookup, insert, eq_refl, eq_sym_false}
use mls4rn.Proposals.Queue.{
  QueuedProposal, ProposalQueue, empty_queue, get, add, extend, queued_proposals, filter_map,
}
use mls4rn.Prelude.{All}

false-true : false ≡ true → ⊥
false-true h = cc

or_false : (a b : Bool) → (a || b) ≡ false → (a ≡ false) × (b ≡ false)
or_false true b h = (h, absurd (false-true (sym h)))
or_false false b h = (refl, h)

or_false_right : (a : Bool) → (a || false) ≡ a
or_false_right true = refl
or_false_right false = refl

or_assoc : (a b c : Bool) → (a || (b || c)) ≡ ((a || b) || c)
or_assoc true b c = refl
or_assoc false b c = refl

module _ {Content PskId Ref : Type 0} ⦃e : Eq Ref⦄ where
  abbrev pub refs : List (QueuedProposal Content PskId Ref) → List Ref
  refs [] = []
  refs (p ∷ ps) = p.proposal_reference ∷ refs ps

  abbrev pub entries :
      List (QueuedProposal Content PskId Ref) → HashMap Ref (QueuedProposal Content PskId Ref)
  entries [] = []
  entries (p ∷ ps) = (p.proposal_reference, p) ∷ entries ps

  abbrev pub queue_of : List (QueuedProposal Content PskId Ref) → ProposalQueue Content PskId Ref
  queue_of ps = record { proposal_references = refs ps; queued_proposals = entries ps }

  -- The first proposal with each reference, after those of `acc`.
  unfoldable pub keep_first :
      List (QueuedProposal Content PskId Ref)
      → List (QueuedProposal Content PskId Ref)
      → List (QueuedProposal Content PskId Ref)
  keep_first acc [] = acc
  keep_first acc (p ∷ ps) =
      keep_first (if contains (refs acc) p.proposal_reference then acc else acc ++ p ∷ []) ps

  -- No reference twice.
  abbrev pub DistinctRefs : List (QueuedProposal Content PskId Ref) → Type 0
  DistinctRefs [] = Unit
  DistinctRefs (p ∷ ps) = (contains (refs ps) p.proposal_reference ≡ false) × DistinctRefs ps

  lookup-entries-none :
      (r : Ref) (ps : List (QueuedProposal Content PskId Ref))
      → contains (refs ps) r ≡ false
      → lookup r (entries ps) ≡ none
  unfolding lookup
  lookup-entries-none r [] h = refl
  lookup-entries-none r (p ∷ ps) h = elim (Bool-cases (p.proposal_reference == r)) [
    | inl same ↦ let both : true ≡ false = (rw same at h) in cc
    | inr other ↦ rw other (lookup-entries-none r ps (rw other at h))
  ]

  lookup-entries-some :
      (r : Ref) (ps : List (QueuedProposal Content PskId Ref))
      → contains (refs ps) r ≡ true
      → (p : QueuedProposal Content PskId Ref) × (lookup r (entries ps) ≡ some p)
  unfolding lookup
  lookup-entries-some r [] h = absurd (false-true h)
  lookup-entries-some r (p ∷ ps) h = elim (Bool-cases (p.proposal_reference == r)) [
    | inl same ↦ (p, rw same refl)
    | inr other ↦ let (q, found) = lookup-entries-some r ps (rw other at h) in (q, rw other found)
  ]

  insert-entries :
      (p : QueuedProposal Content PskId Ref) (ps : List (QueuedProposal Content PskId Ref))
      → contains (refs ps) p.proposal_reference ≡ false
      → insert p.proposal_reference p (entries ps) ≡ entries (ps ++ p ∷ [])
  unfolding insert
  insert-entries p [] h = refl
  insert-entries p (q ∷ ps) h = elim (Bool-cases (q.proposal_reference == p.proposal_reference)) [
    | inl same ↦ let both : true ≡ false = (rw same at h) in cc
    | inr other ↦
        rw other (ap (◌∷◌ (q.proposal_reference, q)) (insert-entries p ps (rw other at h)))
  ]

  refs-append :
      (ps : List (QueuedProposal Content PskId Ref)) (p : QueuedProposal Content PskId Ref)
      → refs (ps ++ p ∷ []) ≡ refs ps ++ p.proposal_reference ∷ []
  refs-append [] p = refl
  refs-append (q ∷ ps) p = ap (◌∷◌ q.proposal_reference) (refs-append ps p)

  pub add-queue_of :
      (ps : List (QueuedProposal Content PskId Ref)) (p : QueuedProposal Content PskId Ref)
      → add (queue_of ps) p
        ≡ queue_of (if contains (refs ps) p.proposal_reference then ps else ps ++ p ∷ [])
  unfolding add
  add-queue_of ps p = elim (Bool-cases (contains (refs ps) p.proposal_reference)) [
    | inl old ↦
        let (q, found) = lookup-entries-some p.proposal_reference ps old in
        rw (old, found, add) refl
    | inr new ↦
        rw
          (
            new,
            lookup-entries-none p.proposal_reference ps new,
            add,
            insert-entries p ps new,
            refs-append ps p,
          )
          refl
  ]

  extend-queue_of :
      (acc ps : List (QueuedProposal Content PskId Ref))
      → extend (queue_of acc) ps ≡ queue_of (keep_first acc ps)
  unfolding extend keep_first
  extend-queue_of acc [] = refl
  extend-queue_of acc (p ∷ ps) =
      ap (λ q. extend q ps) (add-queue_of acc p)
      ∙ extend-queue_of (if contains (refs acc) p.proposal_reference then acc else acc ++ p ∷ []) ps

  Found : List (QueuedProposal Content PskId Ref) → QueuedProposal Content PskId Ref → Type 0
  Found ps p = lookup p.proposal_reference (entries ps) ≡ some p

  shift :
      (h : QueuedProposal Content PskId Ref) (ps sub : List (QueuedProposal Content PskId Ref))
      → contains (refs sub) h.proposal_reference ≡ false
      → All (Found ps) sub
      → All (Found (h ∷ ps)) sub
  unfolding Found lookup
  shift h ps [] new found = tt
  shift h ps (p ∷ sub) new found =
      let (apart, rest) =
        or_false (p.proposal_reference == h.proposal_reference)
          (contains (refs sub) h.proposal_reference) new in
      (
        rw (eq_sym_false p.proposal_reference h.proposal_reference apart) found.0,
        shift h ps sub rest found.1,
      )

  All-Found : (ps : List (QueuedProposal Content PskId Ref)) → DistinctRefs ps → All (Found ps) ps
  unfolding Found lookup
  All-Found [] d = tt
  All-Found (p ∷ ps) d =
      (rw (eq_refl p.proposal_reference) refl, shift p ps ps d.0 (All-Found ps d.1))

  filter_map-refs :
      (all ps : List (QueuedProposal Content PskId Ref))
      → All (Found all) ps
      → filter_map (λ r. lookup r (entries all)) (refs ps) ≡ ps
  unfolding Found
  filter_map-refs all [] found = refl
  filter_map-refs all (p ∷ ps) found =
      rw (found.0, filter_map) (ap (◌∷◌ p) (filter_map-refs all ps found.1))

  pub queued_proposals-queue_of :
      (ps : List (QueuedProposal Content PskId Ref))
      → DistinctRefs ps
      → queued_proposals (queue_of ps) ≡ ps
  unfolding queued_proposals get
  queued_proposals-queue_of ps d = filter_map-refs ps ps (All-Found ps d)

  contains-append :
      (ps : List (QueuedProposal Content PskId Ref)) (p : QueuedProposal Content PskId Ref)
      (r : Ref)
      → contains (refs (ps ++ p ∷ [])) r ≡ (contains (refs ps) r || p.proposal_reference == r)
  contains-append [] p r = or_false_right (p.proposal_reference == r)
  contains-append (q ∷ ps) p r =
      ap (◌||◌ (q.proposal_reference == r)) (contains-append ps p r)
      ∙ or_assoc (q.proposal_reference == r) (contains (refs ps) r) (p.proposal_reference == r)

  pub DistinctRefs-append :
      (ps : List (QueuedProposal Content PskId Ref)) (p : QueuedProposal Content PskId Ref)
      → contains (refs ps) p.proposal_reference ≡ false
      → DistinctRefs ps
      → DistinctRefs (ps ++ p ∷ [])
  DistinctRefs-append [] p new d = (refl, tt)
  DistinctRefs-append (q ∷ ps) p new d =
      let (apart, rest) =
        or_false (q.proposal_reference == p.proposal_reference)
          (contains (refs ps) p.proposal_reference) new in
      (
        contains-append ps p q.proposal_reference
            ∙ (rw (d.0, eq_sym_false q.proposal_reference p.proposal_reference apart) refl),
        DistinctRefs-append ps p rest d.1,
      )

  keep_first-DistinctRefs :
      (acc ps : List (QueuedProposal Content PskId Ref))
      → DistinctRefs acc
      → DistinctRefs (keep_first acc ps)
  unfolding keep_first
  keep_first-DistinctRefs acc [] d = d
  keep_first-DistinctRefs acc (p ∷ ps) d =
      elim (Bool-cases (contains (refs acc) p.proposal_reference)) [
        | inl old ↦ rw old (keep_first-DistinctRefs acc ps d)
        | inr new ↦
            rw new (keep_first-DistinctRefs (acc ++ p ∷ []) ps (DistinctRefs-append acc p new d))
      ]

  -- A queue that is filled one proposal after the other holds the first proposal with each reference,
  -- in the order in which they came.
  pub queued_proposals-extend :
      (ps : List (QueuedProposal Content PskId Ref))
      → queued_proposals (extend empty_queue ps) ≡ keep_first [] ps
  queued_proposals-extend ps =
      ap queued_proposals (extend-queue_of [] ps)
      ∙ queued_proposals-queue_of (keep_first [] ps) (keep_first-DistinctRefs [] ps tt)
