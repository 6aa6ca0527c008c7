-- ===== src/PastSecrets/Deletion.antt =====
-- What the deletion of past epochs leaves.
use mls4rn.Prelude.{
  ℕ, ◌-◌, ◌≤◌, ◌≡◌, refl, inl, inr, true, false, Bool-cases, Option-cases, leb, leb→le, leb→lt,
  List, length, arith, length-drop, some,
}
use mls4rn.PastSecrets.{
  EpochTree, MessageSecretsStore, PastEpochDeletion, SystemTime, stamped_before,
  delete_past_epoch_secrets_before_timestamp, delete_past_epoch_secrets, delete_by_time, drain_to,
}
use mls4rn.PastSecrets.Cuts.{Cut, drain_found-Cut, clear-Cut}

-- Deletion before a time leaves the end of the list without any entry of before that time, and cuts no
-- more than up to the last such entry; it may clear the list where the current secrets are of before
-- that time.
pub before_timestamp-Cut :
    (s : MessageSecretsStore) (cutoff : SystemTime)
    → Cut
        (stamped_before cutoff s.message_secrets.added_at)
        (λ t. stamped_before cutoff t.message_secrets.added_at)
        s.past_epoch_trees
        (delete_past_epoch_secrets_before_timestamp s cutoff).past_epoch_trees
unfolding delete_past_epoch_secrets_before_timestamp
before_timestamp-Cut s cutoff =
    elim (Bool-cases (stamped_before cutoff s.message_secrets.added_at)) [
      | inl h ↦ rw h (clear-Cut _ true s.past_epoch_trees refl)
      | inr h ↦ rw h (drain_found-Cut _ false s.past_epoch_trees)
    ]

drain_to-bound : (n : ℕ) (past : List EpochTree) → length (drain_to (some n) past) ≤ n
drain_to-bound n past = elim (Bool-cases (leb n (length past))) [
  | inl h ↦ rw h (omega (arith, length-drop (length past - n) past, leb→le n (length past) h))
  | inr h ↦ rw h (omega (arith, leb→lt n (length past) h))
]

-- A deletion policy with a number of epochs leaves at most that number, whatever its test of time and
-- whatever the clock reads.
pub delete_past_epoch_secrets-bound :
    (now : ℕ → SystemTime) (s : MessageSecretsStore) (policy : PastEpochDeletion) (n : ℕ)
    → policy.max_past_epochs ≡ some n
    → length (delete_past_epoch_secrets now s policy).past_epoch_trees ≤ n
unfolding delete_past_epoch_secrets
delete_past_epoch_secrets-bound now s policy n e = elim (Option-cases policy.config) [
  | inl h ↦ rw h (omega arith)
  | inr (config, h) ↦ rw (h, e) (drain_to-bound n (delete_by_time now s config).past_epoch_trees)
]
