-- ===== src/Ciphersuite/Tests.antt =====
-- Runs of the ciphersuite tables.
use mls4rn.Prelude.{◌≡◌, ◌↔◌, some}
use mls4rn.Ciphersuite.{
  mls_256_dhkemp384_aes256gcm_sha384_p384, ciphersuite_value, ciphersuite_try_from,
}
use mls4rn.Ciphersuite.Codes.{try_from-value}

try_from-value_example :
    (ciphersuite_try_from 7 ≡ some mls_256_dhkemp384_aes256gcm_sha384_p384)
    ↔ (ciphersuite_value mls_256_dhkemp384_aes256gcm_sha384_p384 ≡ 7)
try_from-value_example = try_from-value mls_256_dhkemp384_aes256gcm_sha384_p384 7
