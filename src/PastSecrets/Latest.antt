-- ===== src/PastSecrets/Latest.antt =====
-- The store keeps the latest epochs, in the order of addition.
use mls4rn.Prelude.{
  ℕ, ◌+◌, ◌-◌, ◌≤◌, ◌<◌, ◌≡◌, refl, sym, ◌∙◌, ap, min, inl, inr, Bool-cases, ltb, leb, ◌==◌, ltb→lt,
  ltb→le, leb→le, leb→lt, ==→≡, ==→≢, List, [], ◌∷◌, ◌++◌, length, take, arith, length-append,
  if◌then◌else◌, true, drop_all, take_all, lt→ltb,
}
use mathlib.Core.List.{append-nil, append_assoc}
use mls4rn.Prelude.Drops.{
  latest, latest_all, latest-append, length-latest, drop-append, take-rotated,
}
use mls4rn.PastSecrets.{
  EpochTree, MessageSecretsStore, resize, add_past_epoch_tree, rotate_left, PastEpochDeletionPolicy,
  max_of_policy,
}

-- No more entries than `max_epochs`.
abbrev pub IsBounded : MessageSecretsStore → Type 0
IsBounded s = length s.past_epoch_trees ≤ s.max_epochs

abbrev add : MessageSecretsStore → EpochTree → MessageSecretsStore
add s t = add_past_epoch_tree s t.epoch t.message_secrets t.leaves

-- The entries after an addition to a store that is in use.
add_entries :
    (n : ℕ) (past : List EpochTree) (t : EpochTree)
    → 0 < n
    → length past ≤ n
    → (if leb n (length past) then take (n - 1) (rotate_left 1 past) else past) ++ t ∷ []
      ≡ latest n (past ++ t ∷ [])
unfolding latest
add_entries n past t pos b = elim (Bool-cases (leb n (length past))) [
  | inl h ↦
      let full = leb→le n (length past) h in
      let over : length (past ++ t ∷ []) - n ≡ 1 =
        omega (arith, length-append past (t ∷ []), full, b) in
      rw (h, over)
        (ap (λ xs. xs ++ t ∷ []) (take-rotated 1 (n - 1) past (omega (arith, full, b, pos)))
          ∙ sym (drop-append 1 past (t ∷ []) (omega (arith, full, pos))))
  | inr h ↦
      let room = leb→lt n (length past) h in
      let over : length (past ++ t ∷ []) - n ≡ 0 =
        omega (arith, length-append past (t ∷ []), room) in
      rw (h, over) refl
]

-- An addition leaves the latest `max_epochs` entries of the old ones and the new.
add-latest :
    (s : MessageSecretsStore) (t : EpochTree)
    → IsBounded s
    → add s t ≡ record s { past_epoch_trees = latest s.max_epochs (s.past_epoch_trees ++ t ∷ []) }
unfolding add_past_epoch_tree latest
add-latest s t b = elim (Bool-cases (s.max_epochs == 0)) [
  | inl h ↦
      let none_kept = ==→≡ s.max_epochs 0 h in
      let empty : s.past_epoch_trees ≡ [] =
        drop_all 0 s.past_epoch_trees (omega (arith, none_kept, b)) in
      rw h (
        ap (λ x. record s { past_epoch_trees = x })
          (empty ∙ sym (drop_all _ (s.past_epoch_trees ++ t ∷ []) (omega (arith, none_kept)))))
  | inr h ↦ rw h (
      ap (λ x. record s { past_epoch_trees = x })
        (add_entries s.max_epochs s.past_epoch_trees t (omega (arith, ==→≢ s.max_epochs 0 h)) b))
]

abbrev pub add_all : MessageSecretsStore → List EpochTree → MessageSecretsStore
add_all s [] = s
add_all s (t ∷ ts) = add_all (add s t) ts

-- After any additions to a store that holds no more than `max_epochs` entries, it holds the latest
-- `max_epochs` of its old entries and the added ones, in their order, and nothing else has changed.
pub add_all-latest :
    (s : MessageSecretsStore) (ts : List EpochTree)
    → IsBounded s
    → add_all s ts ≡ record s { past_epoch_trees = latest s.max_epochs (s.past_epoch_trees ++ ts) }
add_all-latest s [] b =
    ap (λ x. record s { past_epoch_trees = x })
      (sym (latest_all s.max_epochs s.past_epoch_trees b)
        ∙ ap (latest s.max_epochs) (sym (append-nil s.past_epoch_trees)))
add_all-latest s (t ∷ ts) b =
    let kept = latest s.max_epochs (s.past_epoch_trees ++ t ∷ []) in
    let once = add-latest s t b in
    ap (λ x. add_all x ts) once
    ∙ add_all-latest (record s { past_epoch_trees = kept }) ts
        (length-latest s.max_epochs (s.past_epoch_trees ++ t ∷ []))
    ∙ ap (λ x. record s { past_epoch_trees = x })
        (latest-append s.max_epochs (s.past_epoch_trees ++ t ∷ []) ts
          ∙ ap (latest s.max_epochs) (append_assoc s.past_epoch_trees (t ∷ []) ts))

-- Resizing a store that is full leaves the latest entries that the new policy allows.
pub resize-latest :
    (s : MessageSecretsStore) (policy : PastEpochDeletionPolicy)
    → length s.past_epoch_trees ≡ s.max_epochs
    → resize s policy ≡ record s {
      max_epochs = max_of_policy policy;
      past_epoch_trees = latest (max_of_policy policy) s.past_epoch_trees;
    }
unfolding resize latest
resize-latest s policy full =
    let new = max_of_policy policy in
    let past = s.past_epoch_trees in
    elim (Bool-cases (ltb new s.max_epochs)) [
      | inl h ↦
          let fewer = ltb→lt new s.max_epochs h in
          let out : min (s.max_epochs - new) (length past) ≡ length past - new =
            omega (arith, fewer, full) in
          rw (h, out)
            (ap (λ x. record s { max_epochs = new; past_epoch_trees = x })
              (take-rotated (length past - new) new past (omega (arith, fewer, full))))
      | inr h ↦
          let more = ltb→le new s.max_epochs h in
          let stay : length past - new ≡ 0 = omega (arith, more, full) in rw (h, stay) refl
    ]

-- Resizing a store with so few entries that the old size exceeds the new one by at least their number
-- leaves the oldest entries that the new policy allows, in their order.
pub resize-oldest :
    (s : MessageSecretsStore) (policy : PastEpochDeletionPolicy)
    → 0 < length s.past_epoch_trees
    → length s.past_epoch_trees + max_of_policy policy ≤ s.max_epochs
    → (resize s policy).past_epoch_trees ≡ take (max_of_policy policy) s.past_epoch_trees
unfolding resize
resize-oldest s policy some_entry few =
    let new = max_of_policy policy in
    let past = s.past_epoch_trees in
    let shrinks : ltb new s.max_epochs ≡ true =
      lt→ltb new s.max_epochs (omega (arith, some_entry, few)) in
    let out : min (s.max_epochs - new) (length past) ≡ length past = omega (arith, few) in
    rw
      (
        shrinks,
        out,
        drop_all (length past) past (omega arith),
        take_all (length past) past (omega arith),
      )
      refl
