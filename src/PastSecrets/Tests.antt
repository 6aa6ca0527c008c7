-- ===== src/PastSecrets/Tests.antt =====
-- Runs of the store of past epochs.
use mls4rn.Prelude.{
  ◌⊎◌, true, false, ℕ, ◌+◌, ◌*◌, ◌-◌, ◌≤◌, ◌≡◌, refl, List, [], ◌∷◌, ◌++◌, length, take, some, none,
  arith, leb, if◌then◌else◌,
}
use mls4rn.Prelude.Drops.{latest}
use mls4rn.SecretTree.{SecretTree}
use mls4rn.PastSecrets.{
  MessageSecrets, MessageSecretsStore, Member, EpochTree, PastEpochDeletion,
  PastEpochDeletionPolicy, max_of_policy, resize, secrets_for_epoch, epoch_has_leaf,
  leaves_for_epoch, before_timestamp, delete_past_epoch_secrets,
  delete_past_epoch_secrets_before_timestamp, delete_past_epoch_secrets_older_than_duration,
  stamped_before, elapsed_beyond,
}
use mls4rn.PastSecrets.Cuts.{Cut}
use mls4rn.PastSecrets.Deletion.{before_timestamp-Cut, delete_past_epoch_secrets-bound}
use mls4rn.PastSecrets.Durations.{Expired, older_than_duration-Expired}
use mls4rn.PastSecrets.Latest.{add_all, add_all-latest, resize-latest, resize-oldest}
use mls4rn.PastSecrets.Lookup.{
  one_more, no_more, is_some, secrets_for_epoch-latest, epoch_has_leaf-leaves_for_epoch,
}

abbrev no_tree : SecretTree
no_tree = record {
  own_index = 0;
  leaf_nodes = [];
  parent_nodes = [];
  handshake_sender_ratchets = [];
  application_sender_ratchets = [];
  size = 1;
}

-- Secrets that were added at a time, told apart by one byte.
abbrev secrets : ℕ → ℕ → MessageSecrets
secrets tag time = record {
  sender_data_secret = tag ∷ [];
  membership_key = [];
  confirmation_key = [];
  serialized_context = [];
  secret_tree = no_tree;
  added_at = some time;
}

abbrev member : ℕ → Member
member i = record {
  index = i;
  credential = record { credential_type = 1; serialized_credential_content = [] };
  encryption_key = [];
  signature_key = [];
}

abbrev tree : ℕ → EpochTree
tree e = record {
  epoch = e;
  message_secrets = secrets e (e * 100);
  leaves = member 0 ∷ member e ∷ [];
}

abbrev store : ℕ → List EpochTree → MessageSecretsStore
store n past = record { max_epochs = n; past_epoch_trees = past; message_secrets = secrets 9 900 }

abbrev three : List EpochTree
three = tree 1 ∷ tree 2 ∷ tree 3 ∷ []

add_all-latest_example :
    add_all (store 2 []) three ≡ record (store 2 []) { past_epoch_trees = latest 2 ([] ++ three) }
add_all-latest_example = add_all-latest (store 2 []) three (omega arith)

resize-latest_example :
    resize (store 3 three) (PastEpochDeletionPolicy.max_epochs 2) ≡ record (store 3 three) {
      max_epochs = max_of_policy (PastEpochDeletionPolicy.max_epochs 2);
      past_epoch_trees = latest (max_of_policy (PastEpochDeletionPolicy.max_epochs 2)) three;
    }
resize-latest_example = resize-latest (store 3 three) (PastEpochDeletionPolicy.max_epochs 2) refl

five : length three + max_of_policy (PastEpochDeletionPolicy.max_epochs 2) ≤ 10
unfolding max_of_policy
five = omega arith

resize-oldest_example :
    (resize (store 10 three) (PastEpochDeletionPolicy.max_epochs 2)).past_epoch_trees
    ≡ take (max_of_policy (PastEpochDeletionPolicy.max_epochs 2)) three
resize-oldest_example =
    resize-oldest (store 10 three) (PastEpochDeletionPolicy.max_epochs 2) (omega arith) five

secrets_for_epoch-latest_example :
    secrets_for_epoch (add_all (store 2 []) three) 2
    ≡ (if leb (length three - 2) 1 then some (secrets 2 200) else none)
secrets_for_epoch-latest_example =
    secrets_for_epoch-latest (store 2 []) three 0 1 (tree 2) refl
      (one_more (omega arith) (one_more (omega arith) (one_more (omega arith) no_more))) refl

epoch_has_leaf-leaves_for_epoch_example :
    epoch_has_leaf (store 3 three) 2 2 ≡ is_some (leaves_for_epoch (store 3 three) 2 2)
epoch_has_leaf-leaves_for_epoch_example =
    epoch_has_leaf-leaves_for_epoch (store 3 three) 0 2 2
      (one_more (omega arith) (one_more (omega arith) (one_more (omega arith) no_more)))

before_timestamp-Cut_example :
    Cut
      (stamped_before 250 (some 900))
      (λ t. stamped_before 250 t.message_secrets.added_at)
      three
      (delete_past_epoch_secrets_before_timestamp (store 3 three) 250).past_epoch_trees
before_timestamp-Cut_example = before_timestamp-Cut (store 3 three) 250

-- The clock goes on by 100 between two readings.
abbrev ticking : ℕ → ℕ
ticking reading = 1000 + 100 * reading

older_than_duration-Expired_example :
    ((elapsed_beyond 850 1000 (some 900) ≡ true)
      × ((delete_past_epoch_secrets_older_than_duration ticking
            (store 3 three)
            850).past_epoch_trees
          ≡ []))
    ⊎ ((elapsed_beyond 850 1000 (some 900) ≡ false)
        × Expired ticking 850 1 three
            (delete_past_epoch_secrets_older_than_duration ticking
              (store 3 three)
              850).past_epoch_trees)
older_than_duration-Expired_example = older_than_duration-Expired ticking (store 3 three) 850

abbrev keep_one : PastEpochDeletion
keep_one = record { config = some (before_timestamp 150); max_past_epochs = some 1 }

delete_past_epoch_secrets-bound_example :
    length
      (delete_past_epoch_secrets (λ reading. reading) (store 3 three) keep_one).past_epoch_trees
    ≤ 1
delete_past_epoch_secrets-bound_example =
    delete_past_epoch_secrets-bound (λ reading. reading) (store 3 three) keep_one 1 refl
