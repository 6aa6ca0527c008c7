-- ===== src/PastSecrets/Durations.antt =====
-- Deletion of what is older than a duration, with a clock that goes on during the call.
use mathlib.Core.List.{reverse-cons, reverse-reverse, reverse-append}
use mls4rn.Prelude.{
  ℕ, ◌+◌, ◌≡◌, refl, sym, ◌∙◌, ap, inl, inr, ◌⊎◌, true, false, Bool-cases, Option-cases, some, none,
  List, [], ◌∷◌, ◌++◌, reverse, length, drop, arith, length-reverse,
}
use mls4rn.Prelude.{length-append, drop_all}
use mls4rn.Prelude.Drops.{drop-append}
use mls4rn.PastSecrets.{
  EpochTree, MessageSecretsStore, SystemTime, elapsed_beyond, find_last_older, next_reading,
  drain_found, delete_past_epoch_secrets_older_than_duration,
}

module _ (now : ℕ → SystemTime) (d : ℕ) where
  -- The number of the reading after the entries, of which the first is met at reading `n`.
  abbrev pub readings : ℕ → List EpochTree → ℕ
  readings n [] = n
  readings n (t ∷ ts) = readings (next_reading n t.message_secrets.added_at) ts

  -- No entry is older than the duration when the clock is read for it.
  abbrev pub AllRecent : ℕ → List EpochTree → Type 0
  AllRecent n [] = Unit
  AllRecent n (t ∷ ts) =
      (elapsed_beyond d (now n) t.message_secrets.added_at ≡ false)
      × AllRecent (next_reading n t.message_secrets.added_at) ts

  -- `kept` is `all` without the entries of its older end. Each entry that is kept is not older than the
  -- duration when the clock is read for it, and if there is a last one that is cut, it is older when
  -- the clock is read for it. The entries are met from the newest on, the first at reading `n`.
  pub record Expired (n : ℕ) (all kept : List EpochTree) : Type 0 where
    pub cut : List EpochTree
    pub split : all ≡ cut ++ kept
    pub recent : AllRecent n (reverse kept)
    pub last_cut :
        (cut ≡ [])
        ⊎ ((older : List EpochTree) × (t : EpochTree) × (cut ≡ older ++ t ∷ [])
            × (elapsed_beyond d (now (readings n (reverse kept))) t.message_secrets.added_at
                ≡ true))

  -- Where the search stops.
  record Stop (n i : ℕ) (ts : List EpochTree) : Type 0 where
    newer : List EpochTree
    older : List EpochTree
    stop : EpochTree
    split : ts ≡ newer ++ stop ∷ older
    place : length older ≡ i
    recent : AllRecent n newer
    is_older : elapsed_beyond d (now (readings n newer)) stop.message_secrets.added_at ≡ true

  find_last_older-Stop :
      (n i : ℕ) (ts : List EpochTree) → find_last_older now d n ts ≡ some i → Stop n i ts
  unfolding find_last_older
  find_last_older-Stop n i [] e = cc
  find_last_older-Stop n i (t ∷ ts) e =
      elim (Bool-cases (elapsed_beyond d (now n) t.message_secrets.added_at)) [
        | inl old ↦ record {
          newer = [];
          older = ts;
          stop = t;
          split = refl;
          place = let here : some (length ts) ≡ some i = (rw old at e) in cc;
          recent = tt;
          is_older = old;
        }
        | inr new ↦
            let r =
              find_last_older-Stop (next_reading n t.message_secrets.added_at) i ts (rw new at e) in
            record {
              newer = t ∷ r.newer;
              older = r.older;
              stop = r.stop;
              split = ap (◌∷◌ t) r.split;
              place = r.place;
              recent = (new, r.recent);
              is_older = r.is_older;
            }
      ]

  find_last_older-AllRecent :
      (n : ℕ) (ts : List EpochTree) → find_last_older now d n ts ≡ none → AllRecent n ts
  unfolding find_last_older
  find_last_older-AllRecent n [] e = tt
  find_last_older-AllRecent n (t ∷ ts) e =
      elim (Bool-cases (elapsed_beyond d (now n) t.message_secrets.added_at)) [
        | inl old ↦ let no : some (length ts) ≡ none = (rw old at e) in cc
        | inr new ↦ (
          new,
          find_last_older-AllRecent (next_reading n t.message_secrets.added_at) ts (rw new at e),
        )
      ]

  -- What stands behind the place of the stop is what is newer.
  drop-stop :
      (newer older : List EpochTree) (t : EpochTree)
      → drop (length older + 1) (reverse (newer ++ t ∷ older)) ≡ reverse newer
  drop-stop newer older t =
      let front = reverse older ++ t ∷ [] in
      let size : length older + 1 ≡ length front =
        omega (arith, length-append (reverse older) (t ∷ []), length-reverse older) in
      ap (drop (length older + 1))
        (reverse-append newer (t ∷ older) ∙ ap (λ zs. zs ++ reverse newer) (reverse-cons t older))
      ∙ drop-append (length older + 1) front (reverse newer) (omega (arith, size))
      ∙ ap (λ zs. zs ++ reverse newer) (drop_all (length older + 1) front (omega (arith, size)))

  drain_found-Expired :
      (n : ℕ) (past : List EpochTree)
      → Expired n past (drain_found (find_last_older now d n (reverse past)) past)
  drain_found-Expired n past = elim (Option-cases (find_last_older now d n (reverse past))) [
    | inl all ↦ rw all (record {
      cut = [];
      split = refl;
      recent = find_last_older-AllRecent n (reverse past) all;
      last_cut = inl refl;
    })
    | inr (i, found) ↦
        let r = find_last_older-Stop n i (reverse past) found in rw found (stopped past i r)
  ]
    where
      stopped :
          (past : List EpochTree) (i : ℕ)
          → Stop n i (reverse past)
          → Expired n past (drop (i + 1) past)
      stopped past i r =
          let all : past ≡ reverse (r.newer ++ r.stop ∷ r.older) =
            sym (reverse-reverse past) ∙ ap reverse r.split in
          let kept : drop (i + 1) past ≡ reverse r.newer =
            ap (drop (i + 1)) all
            ∙ ap (λ k. drop (k + 1) (reverse (r.newer ++ r.stop ∷ r.older))) (sym r.place)
            ∙ drop-stop r.newer r.older r.stop in
          let newest : reverse (reverse r.newer) ≡ r.newer = reverse-reverse r.newer in
          rw kept (record {
            cut = reverse r.older ++ r.stop ∷ [];
            split =
                all
                ∙ reverse-append r.newer (r.stop ∷ r.older)
                ∙ ap (λ zs. zs ++ reverse r.newer) (reverse-cons r.stop r.older);
            recent = rw newest r.recent;
            last_cut = inr (reverse r.older, r.stop, refl, rw newest r.is_older);
          })

-- Deletion of what is older than a duration clears the past where the current secrets are older than
-- that at the first reading of the clock. Else it cuts the older end of the list: the clock is read
-- once for each set of secrets with a timestamp, from the current ones over the newest past ones
-- on; each entry that is left is not older than the duration at its reading, and the last one that is
-- cut, if there is one, is older at its reading. The clock may go on, or be set, between the readings.
pub older_than_duration-Expired :
    (now : ℕ → SystemTime) (s : MessageSecretsStore) (d : ℕ)
    → ((elapsed_beyond d (now 0) s.message_secrets.added_at ≡ true)
        × ((delete_past_epoch_secrets_older_than_duration now s d).past_epoch_trees ≡ []))
      ⊎ ((elapsed_beyond d (now 0) s.message_secrets.added_at ≡ false)
          × Expired now d
              (next_reading 0 s.message_secrets.added_at)
              s.past_epoch_trees
              (delete_past_epoch_secrets_older_than_duration now s d).past_epoch_trees)
unfolding delete_past_epoch_secrets_older_than_duration
older_than_duration-Expired now s d =
    elim (Bool-cases (elapsed_beyond d (now 0) s.message_secrets.added_at)) [
      | inl old ↦ inl (old, rw old refl)
      | inr new ↦ inr (
        new,
        rw new (
            drain_found-Expired now d (next_reading 0 s.message_secrets.added_at)
              s.past_epoch_trees),
      )
    ]
