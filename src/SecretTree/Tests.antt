-- ===== src/SecretTree/Tests.antt =====
-- Runs of the secret tree, with the provider of the ratchets' tests.
use mls4rn.Prelude.{◌≡◌, refl, List, [], ◌∷◌, arith}
use mls4rn.Prelude.{ok, ◌<<◌, ◌>>◌}
use mls4rn.Secrets.{Secret, expand, serialized_label, kdf_expand_label}
use mls4rn.SenderRatchet.{
  RatchetKeyMaterial, default_configuration, ratchet_forward, skip_loop, take_head,
  derive_tree_secret, derive_child_secrets, nonce_from_secret, window_index,
  secret_for_decryption as ratchet_secret_for_decryption,
}
use mls4rn.SenderRatchet.Chain.{keys_at}
use mls4rn.SenderRatchet.Tests.{toy, suite, seed}
use mls4rn.SecretTree.{
  application_secret, handshake_secret, secret_for_decryption, secret_for_encryption,
  initialize_sender_ratchets, secret_tree, set_node, get_node, set_ratchet, ratchet_opt,
  ratchet_mut, derive_down,
}
use mls4rn.SecretTree.Agreement.{
  Call, encrypt, decrypt, member_tree, members_agree, decryption_of_root,
}
use mls4rn.SecretTree.Derived.{ratchet_root}
use mls4rn.TreeMath.Size.{log2, leading_zeros, bit_length}
use mls4rn.TreeMath.Index.{tree_node}
use mls4rn.TreeMath.Navigation.{level, root, left, right, parent}
use mls4rn.TreeMath.Paths.{direct_path, direct_path_loop}

abbrev other_calls : List Call
other_calls = decrypt 2 handshake_secret 1 default_configuration ∷ encrypt 1 application_secret ∷ []

sent :
    (keys : RatchetKeyMaterial) × ((secret_for_encryption toy suite 0 application_secret
        (member_tree toy suite seed 2 (omega arith) 0 [])).1
      ≡ ok (0, keys))
unfolding secret_for_encryption initialize_sender_ratchets secret_tree set_node get_node set_ratchet
    ratchet_opt ratchet_mut derive_down derive_child_secrets ratchet_forward derive_tree_secret
    kdf_expand_label serialized_label expand nonce_from_secret direct_path direct_path_loop parent
    left right root level log2 leading_zeros bit_length tree_node ◌<<◌ ◌>>◌
sent = (_, refl)

received :
    (keys : RatchetKeyMaterial) × ((secret_for_decryption toy suite 0 application_secret 0
        default_configuration
        (member_tree toy suite seed 2 (omega arith) 1 other_calls)).1
      ≡ ok keys)
unfolding secret_for_encryption secret_for_decryption initialize_sender_ratchets secret_tree
    set_node get_node set_ratchet ratchet_opt ratchet_mut derive_down derive_child_secrets
    ratchet_forward derive_tree_secret kdf_expand_label serialized_label expand nonce_from_secret
    ratchet_secret_for_decryption skip_loop take_head window_index direct_path direct_path_loop
    parent left right root level log2 leading_zeros bit_length tree_node ◌<<◌ ◌>>◌
received = (_, refl)

members_agree_example : sent.0 ≡ received.0
members_agree_example =
    members_agree toy suite seed 2 (omega arith) 0 1 0 application_secret 0 default_configuration []
      other_calls sent.0 received.0 sent.1 received.1

decryption_of_root_example :
    (ratchet_secret : Secret) × (ratchet_root toy suite seed 2 application_secret 0
      ≡ ok ratchet_secret)
    × (keys_at toy suite ratchet_secret 0 ≡ ok received.0)
decryption_of_root_example =
    decryption_of_root toy suite seed 2 (omega arith) 1 0 application_secret 0 default_configuration
      other_calls received.0 received.1
