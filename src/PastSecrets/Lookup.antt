-- ===== src/PastSecrets/Lookup.antt =====
-- Which epochs a store finds after additions.
use mls4rn.Prelude.{
  ℕ, zero, suc, ◌-◌, ◌≤◌, ◌<◌, ◌≡◌, refl, sym, ◌∙◌, inl, inr, Bool-cases, leb, ◌==◌, ≡→==, ≢→==,
  ==→≡, List, [], ◌∷◌, length, drop, arith, if◌then◌else◌, some, none, get_elem?, true, false, Bool,
  ◌&&◌, Option,
}
use mathlib.Core.Option
use mls4rn.Prelude.Drops.{latest}
use mls4rn.PastSecrets.{EpochTree, MessageSecretsStore, Member, find_epoch, secrets_for_epoch}
use mls4rn.PastSecrets.Latest.{IsBounded, add_all, add_all-latest}
use mls4rn.PastSecrets.{epoch_has_leaf, leaves_for_epoch, collect_members, any, or_earlier, map_of}
use mls4rn.TreeMath.Index.{LeafNodeIndex}

abbrev pub is_some {ℓ} : {A : Type ℓ} → Option A → Bool
is_some (some a) = true
is_some none = false

-- Epochs that grow along the list, all from `b` on.
pub data Increasing : ℕ → List EpochTree → Type 0 where
  no_more : {b : ℕ} → Increasing b []
  one_more :
      {b : ℕ} {t : EpochTree} {ts : List EpochTree}
      → b ≤ t.epoch
      → Increasing (suc t.epoch) ts
      → Increasing b (t ∷ ts)

Increasing-bound :
    (b i : ℕ) (ts : List EpochTree) (t : EpochTree)
    → Increasing b ts
    → get_elem? ts i ≡ some t
    → b ≤ t.epoch
Increasing-bound b i [] t inc e = cc
Increasing-bound b zero (u ∷ ts) t (one_more le inc) e = let same : u ≡ t = cc in rw same at le
Increasing-bound b (suc i) (u ∷ ts) t (one_more le inc) e =
    let later = Increasing-bound (suc u.epoch) i ts t inc e in omega (arith, later, le)

find_epoch-below :
    (b e d : ℕ) (ts : List EpochTree) → Increasing b ts → e < b → find_epoch (drop d ts) e ≡ none
unfolding find_epoch
find_epoch-below b e zero [] inc lt = refl
find_epoch-below b e (suc d) [] inc lt = refl
find_epoch-below b e zero (t ∷ ts) (one_more le inc) lt =
    rw (≢→== t.epoch e (λ x. omega (arith, x, le, lt)))
      (find_epoch-below (suc t.epoch) e 0 ts inc (omega (arith, le, lt)))
find_epoch-below b e (suc d) (t ∷ ts) (one_more le inc) lt =
    find_epoch-below (suc t.epoch) e d ts inc (omega (arith, le, lt))

find_epoch-drop :
    (b d i : ℕ) (ts : List EpochTree) (t : EpochTree)
    → Increasing b ts
    → get_elem? ts i ≡ some t
    → find_epoch (drop d ts) t.epoch ≡ (if leb d i then some t else none)
unfolding find_epoch
find_epoch-drop b d i [] t inc e = cc
find_epoch-drop b zero zero (u ∷ ts) t (one_more le inc) e =
    let same : u ≡ t = cc in rw (same, ≡→== t.epoch t.epoch refl) refl
find_epoch-drop b zero (suc i) (u ∷ ts) t (one_more le inc) e =
    let later = Increasing-bound (suc u.epoch) i ts t inc e in
    let all : leb 0 i ≡ true = ground arith in
    let all' : leb 0 (suc i) ≡ true = ground arith in
    rw (≢→== u.epoch t.epoch (λ x. omega (arith, x, later)), all')
      (find_epoch-drop (suc u.epoch) 0 i ts t inc e ∙ (rw all refl))
find_epoch-drop b (suc d) zero (u ∷ ts) t (one_more le inc) e =
    let same : u ≡ t = cc in
    let never : leb (suc d) 0 ≡ false = ground arith in
    rw (never, ← same) (find_epoch-below (suc u.epoch) u.epoch d ts inc (omega arith))
find_epoch-drop b (suc d) (suc i) (u ∷ ts) t (one_more le inc) e =
    let step : leb (suc d) (suc i) ≡ leb d i = ground arith in
    rw step (find_epoch-drop (suc u.epoch) d i ts t inc e)

-- Of the epochs added to an empty store in increasing order, the lookup finds the secrets of those
-- among the last `max_epochs`, and of no other.
pub secrets_for_epoch-latest :
    (s : MessageSecretsStore) (ts : List EpochTree) (b i : ℕ) (t : EpochTree)
    → s.past_epoch_trees ≡ []
    → Increasing b ts
    → get_elem? ts i ≡ some t
    → secrets_for_epoch (add_all s ts) t.epoch
      ≡ (if leb (length ts - s.max_epochs) i then some t.message_secrets else none)
unfolding latest
secrets_for_epoch-latest s ts b i t empty inc e =
    let bounded : IsBounded s = rw empty (omega arith) in
    let found = find_epoch-drop b (length ts - s.max_epochs) i ts t inc e in
    rw (add_all-latest s ts bounded, empty, found) (map_if (leb (length ts - s.max_epochs) i))
  where
    map_if :
        (x : Bool)
        → Option.map (λ (u : EpochTree). u.message_secrets) (if x then some t else none)
          ≡ (if x then some t.message_secrets else none)
    map_if true = refl
    map_if false = refl

collect_members-any :
    (ms : List Member) (i : LeafNodeIndex)
    → any (λ m. m.index == i) ms ≡ is_some (collect_members ms i)
unfolding collect_members
collect_members-any [] i = refl
collect_members-any (m ∷ ms) i = elim (Bool-cases (m.index == i)) [
  | inl h ↦ rw h (sym (either (collect_members ms i)))
  | inr h ↦ rw h (collect_members-any ms i ∙ sym (or_none (collect_members ms i)))
]
  where
    either : (o : Option Member) → is_some (or_earlier o (some m)) ≡ true
    either (some x) = refl
    either none = refl

    or_none : (o : Option Member) → is_some (or_earlier o none) ≡ is_some o
    or_none (some x) = refl
    or_none none = refl

-- Later epochs are not found under an earlier number.
any-later :
    (b e : ℕ) (i : LeafNodeIndex) (ts : List EpochTree)
    → Increasing b ts
    → e < b
    → any (λ t. (t.epoch == e) && any (λ m. m.index == i) t.leaves) ts ≡ false
any-later b e i [] inc lt = refl
any-later b e i (t ∷ ts) (one_more le inc) lt =
    rw (≢→== t.epoch e (λ x. omega (arith, x, le, lt)))
      (any-later (suc t.epoch) e i ts inc (omega (arith, le, lt)))

has_leaf :
    (b e : ℕ) (i : LeafNodeIndex) (ts : List EpochTree)
    → Increasing b ts
    → any (λ t. (t.epoch == e) && any (λ m. m.index == i) t.leaves) ts
      ≡ is_some (map_of (find_epoch ts e) i)
unfolding find_epoch
has_leaf b e i [] inc = refl
has_leaf b e i (t ∷ ts) (one_more le inc) = elim (Bool-cases (t.epoch == e)) [
  | inr h ↦ rw h (has_leaf (suc t.epoch) e i ts inc)
  | inl h ↦
      let none_later = any-later (suc t.epoch) e i ts inc (omega (arith, ==→≡ t.epoch e h)) in
      rw (h, none_later)
        (if_false (any (λ m. m.index == i) t.leaves) ∙ collect_members-any t.leaves i)
]
  where
    if_false : (x : Bool) → (if x then true else false) ≡ x
    if_false true = refl
    if_false false = refl

-- In a store whose epochs grow in the order of the entries, an epoch has a leaf exactly when the map
-- of its members has an entry for the leaf.
pub epoch_has_leaf-leaves_for_epoch :
    (s : MessageSecretsStore) (b e : ℕ) (i : LeafNodeIndex)
    → Increasing b s.past_epoch_trees
    → epoch_has_leaf s e i ≡ is_some (leaves_for_epoch s e i)
unfolding epoch_has_leaf leaves_for_epoch
epoch_has_leaf-leaves_for_epoch s b e i inc = has_leaf b e i s.past_epoch_trees inc
