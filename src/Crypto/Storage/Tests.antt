-- ===== src/Crypto/Storage/Tests.antt =====
-- The theorems on key storage at concrete inputs.
use zero_mes.Common.{
  ◌≡◌, refl, true, false, none, some, [], ◌∷◌, replicate, get_elem?, get_item, arith,
}
use zero_mes.Crypto.Encryption.{is_crypto_available, get_crypto_subtle}
use zero_mes.Crypto.Samples.{plain_encoding, plain_subtle}
use zero_mes.Crypto.Storage.{
  Entry, Store, Browser, request, put_key, get_key, encrypt_data, decrypt_data, derive_storage_key,
  save_private_key_secure, restore_private_key_secure, clear_keys_secure, reload,
}
use zero_mes.Crypto.Storage.Restore.{
  restored, restore-save_persistent, restore-save_stale, save_persistent-leaves_plain,
}
use zero_mes.Crypto.Storage.Clear.{clear_keys_secure-wipes}

abbrev working : Browser
working = record {
  window = record { defined = true; has_crypto = true; has_subtle = true; secure = true };
  opens = true;
  succeeds = true;
  fingerprint = "Firefox|en|800x600";
  random = replicate 12 1;
  now = "0";
}

abbrev broken : Browser
broken = record working { opens = false }

abbrev old : Entry
old = record { encrypted = replicate 32 9; iv = replicate 12 2 }

-- One key of 32 bytes in memory, and an older one in the database.
abbrev store : Store
store = record {
  cached_private_key = none;
  heap = replicate 32 7 ∷ [];
  local_storage = [];
  session_storage = [];
  indexed_db = some old;
}

restore-save_persistent_example :
    restored (
      restore_private_key_secure plain_encoding plain_subtle working
        (reload (save_private_key_secure plain_encoding plain_subtle working 0 true store)))
    ≡ some (replicate 32 7)
unfolding is_crypto_available request
restore-save_persistent_example =
    restore-save_persistent plain_encoding plain_subtle working working 0 store (omega arith) refl
      refl refl refl refl

restore-save_stale_example :
    restored (
      restore_private_key_secure plain_encoding plain_subtle working
        (reload (save_private_key_secure plain_encoding plain_subtle broken 0 true store)))
    ≡ some (replicate 32 9)
unfolding is_crypto_available request put_key get_key encrypt_data decrypt_data derive_storage_key
    get_crypto_subtle plain_subtle
restore-save_stale_example =
    restore-save_stale plain_encoding plain_subtle broken working 0 store old (replicate 32 9) refl
      refl refl

abbrev after_session : Store
after_session = record store { local_storage = ("private_key", "QUJD") ∷ [] }

save_persistent-leaves_plain_example :
    get_item
      (save_private_key_secure plain_encoding plain_subtle working 0 true
        after_session).local_storage
      "private_key"
    ≡ get_item after_session.local_storage "private_key"
unfolding is_crypto_available request put_key encrypt_data derive_storage_key get_crypto_subtle
    plain_subtle
save_persistent-leaves_plain_example =
    save_persistent-leaves_plain plain_encoding plain_subtle working 0 after_session
      (record { encrypted = replicate 32 7; iv = replicate 12 1 }) refl

clear_keys_secure-wipes_example :
    get_elem?
      (clear_keys_secure plain_encoding plain_subtle working
        (record store { cached_private_key = some 0 })).heap
      0
    ≡ some (replicate 32 0)
clear_keys_secure-wipes_example =
    clear_keys_secure-wipes plain_encoding plain_subtle working
      (record store { cached_private_key = some 0 }) 0 (replicate 32 7) refl refl
