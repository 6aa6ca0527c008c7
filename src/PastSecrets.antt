-- ===== src/PastSecrets.antt =====
-- openmls/openmls/src/group/mls_group/past_secrets.rs and config.rs, with the `MessageSecrets` of
-- schedule/message_secrets.rs: the secrets of past epochs, and the policies that delete them. The
-- clock is a parameter: `now n` is the `n`-th reading of a call.
pub mod Latest
pub mod Lookup
pub mod Cuts
pub mod Deletion
pub mod Durations
mod Tests
use mls4rn.Prelude.{
  ℕ, zero, suc, ◌+◌, ◌-◌, ◌^◌, min, Bool, true, false, ◌&&◌, ltb, leb, ◌==◌, if◌then◌else◌, Option,
  none, some, List, [], ◌∷◌, ◌++◌, reverse, length, take, drop,
}
use mathlib.Core.Option
use mls4rn.Secrets.{Bytes, Secret}
use mls4rn.SecretTree.{SecretTree}
use mls4rn.TreeMath.Index.{LeafNodeIndex}

abbrev pub SystemTime : Type 0
SystemTime = ℕ

pub record MessageSecrets : Type 0 where
  pub sender_data_secret : Secret
  pub membership_key : Secret
  pub confirmation_key : Secret
  pub serialized_context : Bytes
  pub secret_tree : SecretTree
  pub added_at : Option SystemTime

abbrev pub with_timestamp : MessageSecrets → SystemTime → MessageSecrets
with_timestamp m t = record m { added_at = some t }

-- `Credential`, of credentials/mod.rs, by its type's code and its content.
pub record Credential : Type 0 where
  pub credential_type : ℕ
  pub serialized_credential_content : Bytes

-- `Member`, of mls_group/mod.rs.
pub record Member : Type 0 where
  pub index : LeafNodeIndex
  pub credential : Credential
  pub encryption_key : Bytes
  pub signature_key : Bytes

pub record EpochTree : Type 0 where
  pub epoch : ℕ
  pub message_secrets : MessageSecrets
  pub leaves : List Member

pub record MessageSecretsStore : Type 0 where
  pub max_epochs : ℕ
  pub past_epoch_trees : List EpochTree
  pub message_secrets : MessageSecrets

pub data PastEpochDeletionPolicy : Type 0 where
  max_epochs : ℕ → PastEpochDeletionPolicy
  keep_all : PastEpochDeletionPolicy

-- `PastEpochDeletionPolicy::max_epochs`
abbrev pub policy_max_epochs : PastEpochDeletionPolicy → Option ℕ
policy_max_epochs (PastEpochDeletionPolicy.max_epochs n) = some n
policy_max_epochs keep_all = none

pub data PastEpochDeletionTimeConfig : Type 0 where
  older_than_duration : ℕ → PastEpochDeletionTimeConfig
  before_timestamp : SystemTime → PastEpochDeletionTimeConfig
  delete_all_without_timestamp : PastEpochDeletionTimeConfig

pub record PastEpochDeletion : Type 0 where
  pub config : Option PastEpochDeletionTimeConfig
  pub max_past_epochs : Option ℕ

-- `isize::MAX`, of a 64-bit target.
abbrev pub vecdeque_max_capacity : ℕ
vecdeque_max_capacity = 2 ^ 63 - 1

abbrev pub unwrap_or : Option ℕ → ℕ → ℕ
unwrap_or (some n) d = n
unwrap_or none d = d

-- The function `max_epochs`.
unfoldable pub max_of_policy : PastEpochDeletionPolicy → ℕ
max_of_policy policy =
    min (unwrap_or (policy_max_epochs policy) vecdeque_max_capacity) vecdeque_max_capacity

unfoldable pub new_with_secret :
    SystemTime → PastEpochDeletionPolicy → MessageSecrets → MessageSecretsStore
new_with_secret now policy m = record {
  max_epochs = max_of_policy policy;
  past_epoch_trees = [];
  message_secrets = with_timestamp m now;
}

-- `VecDeque::rotate_left`, which panics beyond the length.
abbrev pub rotate_left {ℓ} : {A : Type ℓ} → ℕ → List A → List A
rotate_left n xs = drop n xs ++ take n xs

unfoldable pub resize : MessageSecretsStore → PastEpochDeletionPolicy → MessageSecretsStore
resize s policy =
    let new = max_of_policy policy in
    let past = s.past_epoch_trees in
    record s {
      max_epochs = new;
      past_epoch_trees =
          if ltb new s.max_epochs
          then take new (rotate_left (min (s.max_epochs - new) (length past)) past)
          else past;
    }

-- The new store, and the secrets that were current.
unfoldable pub replace_current_message_secrets :
    SystemTime → MessageSecretsStore → MessageSecrets → MessageSecretsStore × MessageSecrets
replace_current_message_secrets now s m =
    (record s { message_secrets = with_timestamp m now }, s.message_secrets)

unfoldable pub add_past_epoch_tree :
    MessageSecretsStore → ℕ → MessageSecrets → List Member → MessageSecretsStore
add_past_epoch_tree s e m leaves =
    let past = s.past_epoch_trees in
    let made_room =
      if leb s.max_epochs (length past)
      then take (s.max_epochs - 1) (rotate_left 1 past)
      else past in
    if s.max_epochs == 0 then s else record s {
      past_epoch_trees =
          made_room ++ (record { epoch = e; message_secrets = m; leaves = leaves }) ∷ [];
    }

-- The loop that the lookups share: the first tree of the epoch.
unfoldable pub find_epoch : List EpochTree → ℕ → Option EpochTree
find_epoch [] e = none
find_epoch (t ∷ ts) e = if t.epoch == e then some t else find_epoch ts e

abbrev pub secrets_for_epoch : MessageSecretsStore → ℕ → Option MessageSecrets
secrets_for_epoch s e = Option.map (λ t. t.message_secrets) (find_epoch s.past_epoch_trees e)

abbrev pub secrets_and_leaves_for_epoch :
    MessageSecretsStore → ℕ → Option (MessageSecrets × List Member)
secrets_and_leaves_for_epoch s e =
    Option.map (λ t. (t.message_secrets, t.leaves)) (find_epoch s.past_epoch_trees e)

-- A `HashMap` collected from pairs: the last member with an index stands.
abbrev pub or_earlier : Option Member → Option Member → Option Member
or_earlier (some m) earlier = some m
or_earlier none earlier = earlier

unfoldable pub collect_members : List Member → LeafNodeIndex → Option Member
collect_members [] i = none
collect_members (m ∷ ms) i =
    or_earlier (collect_members ms i) (if m.index == i then some m else none)

abbrev pub map_of : Option EpochTree → LeafNodeIndex → Option Member
map_of none i = none
map_of (some t) i = collect_members t.leaves i

unfoldable pub leaves_for_epoch : MessageSecretsStore → ℕ → LeafNodeIndex → Option Member
leaves_for_epoch s e = map_of (find_epoch s.past_epoch_trees e)

-- `Iterator::any`
abbrev pub any {ℓ} : {A : Type ℓ} → (A → Bool) → List A → Bool
any f [] = false
any f (x ∷ xs) = if f x then true else any f xs

unfoldable pub epoch_has_leaf : MessageSecretsStore → ℕ → LeafNodeIndex → Bool
epoch_has_leaf s e i =
    any (λ t. (t.epoch == e) && any (λ m. m.index == i) t.leaves) s.past_epoch_trees

-- `enumerate().rev().find(...)` on the reversed list: the index counts what is left.
abbrev pub find_last {ℓ} : {A : Type ℓ} → (A → Bool) → List A → Option ℕ
find_last f [] = none
find_last f (x ∷ xs) = if f x then some (length xs) else find_last f xs

-- `drain(0..found_idx + 1)`
abbrev pub drain_found {ℓ} : {A : Type ℓ} → Option ℕ → List A → List A
drain_found (some i) xs = drop (i + 1) xs
drain_found none xs = xs

abbrev pub stamped_before : SystemTime → Option SystemTime → Bool
stamped_before cutoff none = false
stamped_before cutoff (some t) = ltb t cutoff

unfoldable pub delete_past_epoch_secrets_before_timestamp :
    MessageSecretsStore → SystemTime → MessageSecretsStore
delete_past_epoch_secrets_before_timestamp s cutoff =
    let past = s.past_epoch_trees in
    let found = find_last (λ t. stamped_before cutoff t.message_secrets.added_at) (reverse past) in
    record s {
      past_epoch_trees =
          if stamped_before cutoff s.message_secrets.added_at then [] else drain_found found past;
    }

-- `now().duration_since(added_at)` is an error for a time to come.
abbrev pub elapsed_beyond : ℕ → SystemTime → Option SystemTime → Bool
elapsed_beyond d now none = false
elapsed_beyond d now (some t) = leb t now && ltb d (now - t)

-- The clock is read once for each entry with a timestamp.
abbrev pub next_reading : ℕ → Option SystemTime → ℕ
next_reading n none = n
next_reading n (some t) = n + 1

unfoldable pub find_last_older : (ℕ → SystemTime) → ℕ → ℕ → List EpochTree → Option ℕ
find_last_older now d n [] = none
find_last_older now d n (t ∷ ts) =
    let rest = find_last_older now d (next_reading n t.message_secrets.added_at) ts in
    if elapsed_beyond d (now n) t.message_secrets.added_at then some (length ts) else rest

unfoldable pub delete_past_epoch_secrets_older_than_duration :
    (ℕ → SystemTime) → MessageSecretsStore → ℕ → MessageSecretsStore
delete_past_epoch_secrets_older_than_duration now s d =
    let past = s.past_epoch_trees in
    let current = s.message_secrets.added_at in
    let found = find_last_older now d (next_reading 0 current) (reverse past) in
    record s {
      past_epoch_trees = if elapsed_beyond d (now 0) current then [] else drain_found found past;
    }

abbrev is_stamped : EpochTree → Bool
is_stamped t = elim t.message_secrets.added_at [ none ↦ false | some time ↦ true ]

-- `VecDeque::retain`
abbrev pub retain {ℓ} : {A : Type ℓ} → (A → Bool) → List A → List A
retain f [] = []
retain f (x ∷ xs) = if f x then x ∷ retain f xs else retain f xs

unfoldable pub delete_by_time :
    (ℕ → SystemTime) → MessageSecretsStore → PastEpochDeletionTimeConfig → MessageSecretsStore
delete_by_time now s delete_all_without_timestamp = record s {
  past_epoch_trees = retain is_stamped s.past_epoch_trees;
}
delete_by_time now s (before_timestamp t) = delete_past_epoch_secrets_before_timestamp s t
delete_by_time now s (older_than_duration d) = delete_past_epoch_secrets_older_than_duration now s d

-- `checked_sub` and `drain(0..i)`: at most `max_past_epochs` entries stay.
abbrev pub drain_to : Option ℕ → List EpochTree → List EpochTree
drain_to none past = past
drain_to (some n) past = if leb n (length past) then drop (length past - n) past else past

unfoldable pub delete_past_epoch_secrets :
    (ℕ → SystemTime) → MessageSecretsStore → PastEpochDeletion → MessageSecretsStore
delete_past_epoch_secrets now s policy = elim policy.config [
  | none ↦ record s { past_epoch_trees = [] }
  | some config ↦
      let by_time = delete_by_time now s config in
      record by_time { past_epoch_trees = drain_to policy.max_past_epochs by_time.past_epoch_trees }
]
