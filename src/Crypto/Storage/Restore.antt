-- ===== src/Crypto/Storage/Restore.antt =====
-- What secureStorage.ts saves and what it gives back.
use zero_mes.Common.{
  ℕ, ◌≡◌, refl, ap, String, true, Option, none, some, ◌∷◌, get_elem?, get_item, set_item,
  storage_laws, get_elem?-append_last, arith,
}
use zero_mes.Crypto.Primitives.{Bytes, AreBytes, Encoding, Subtle}
use zero_mes.Crypto.Encryption.{CryptoError, ok, err, is_crypto_available, get_crypto_subtle}
use zero_mes.Crypto.Encryption.RoundTrip.{store_units-AreBytes}
use zero_mes.Crypto.Storage.{
  Entry, Store, Browser, salt, bytes_at, derive_storage_key, encrypt_data, decrypt_data, request,
  put_key, save_private_key_secure, found, restore_from_local, get_key, restore_persistent,
  restore_private_key_secure, reload,
}

-- The bytes that a restore hands out.
abbrev pub restored : Store × Option ℕ → Option Bytes
restored (s, none) = none
restored (s, some r) = get_elem? s.heap r

abbrev pub with_entry : ℕ → Entry → Store → Store
with_entry key e s = record s {
  cached_private_key = some key;
  indexed_db = some e;
  local_storage = set_item "key_storage_type" "persistent" s.local_storage;
}

abbrev pub with_fallback : ℕ → String → Store → Store
with_fallback key base64 s = record s {
  cached_private_key = some key;
  local_storage =
      set_item "key_storage_type" "persistent" (set_item "private_key" base64 s.local_storage);
}

module _ (text : Encoding) (subtle : Subtle) where
  restored-found : (plain : Bytes) (s : Store) → restored (found text subtle plain s) ≡ some plain
  unfolding found
  restored-found plain s = get_elem?-append_last s.heap plain

  -- A key of at least one byte that `localStorage` holds in base64 is read back.
  pub restore_from_local-btoa :
      (x : ℕ) (plain : Bytes) (s : Store)
      → AreBytes (x ∷ plain)
      → get_item s.local_storage "private_key" ≡ some (text.btoa (x ∷ plain))
      → restored (restore_from_local text subtle s) ≡ some (x ∷ plain)
  unfolding restore_from_local
  restore_from_local-btoa x plain s bytes e =
      rw
        (
          e,
          restore_from_local,
          text.btoa-cons x plain,
          text.atob-btoa (x ∷ plain) bytes,
          store_units-AreBytes (x ∷ plain) bytes,
        )
        (restored-found (x ∷ plain) s)

  pub restore_session :
      (b : Browser) (s : Store)
      → s.cached_private_key ≡ none
      → get_item s.local_storage "key_storage_type" ≡ some "session"
      → restore_private_key_secure text subtle b s ≡ restore_from_local text subtle s
  unfolding restore_private_key_secure
  restore_session b s c e = ground arith

  restore_as_persistent :
      (b : Browser) (s : Store)
      → s.cached_private_key ≡ none
      → get_item s.local_storage "key_storage_type" ≡ some "persistent"
      → restore_private_key_secure text subtle b s ≡ restore_persistent text subtle b s
  unfolding restore_private_key_secure
  restore_as_persistent b s c e = ground arith

  -- The entry that a put makes is decrypted by a browser with the same fingerprint.
  pub put-get :
      (b later : Browser) (plain : Bytes)
      → AreBytes plain
      → is_crypto_available b.window ≡ true
      → is_crypto_available later.window ≡ true
      → b.fingerprint ≡ later.fingerprint
      → request text subtle b ≡ ok tt
      → request text subtle later ≡ ok tt
      → (e : Entry) × (put_key text subtle b plain ≡ ok e)
        × (get_key text subtle later (some e) ≡ ok (some plain))
  unfolding put_key get_key encrypt_data decrypt_data derive_storage_key get_crypto_subtle
  put-get b later plain bytes here there same put got =
      let k = subtle.pbkdf2 (text.encode later.fingerprint) salt 100000 in
      (
        record { encrypted = subtle.encrypt k b.random plain; iv = b.random },
        simp (here, put, same),
        simp (there, got, subtle.decrypt-encrypt k b.random plain bytes),
      )

  -- The store after a save with "remember me", by whether the database took the entry.
  pub save_persistent :
      (b : Browser) (key : ℕ) (s : Store) (e : Entry)
      → put_key text subtle b (bytes_at s.heap key) ≡ ok e
      → save_private_key_secure text subtle b key true s ≡ with_entry key e s
  unfolding save_private_key_secure
  save_persistent b key s e h = ground arith

  pub save_fallback :
      (b : Browser) (key : ℕ) (s : Store) {c : CryptoError}
      → put_key text subtle b (bytes_at s.heap key) ≡ err c
      → save_private_key_secure text subtle b key true s
        ≡ with_fallback key (text.btoa (bytes_at s.heap key)) s
  unfolding save_private_key_secure
  save_fallback b key s h = ground arith

  -- What is in the database is read first.
  pub restored-database :
      (later : Browser) (s : Store) (plain : Bytes)
      → s.cached_private_key ≡ none
      → get_item s.local_storage "key_storage_type" ≡ some "persistent"
      → get_key text subtle later s.indexed_db ≡ ok (some plain)
      → restored (restore_private_key_secure text subtle later s) ≡ some plain
  unfolding restore_persistent
  restored-database later s plain c type read =
      rw (restore_as_persistent later s c type, restore_persistent, read) (restored-found plain s)

  -- With "remember me", a database that works and an unchanged fingerprint, the key is given back after a
  -- reload.
  pub restore-save_persistent :
      (b later : Browser) (key : ℕ) (s : Store)
      → AreBytes (bytes_at s.heap key)
      → is_crypto_available b.window ≡ true
      → is_crypto_available later.window ≡ true
      → b.fingerprint ≡ later.fingerprint
      → request text subtle b ≡ ok tt
      → request text subtle later ≡ ok tt
      → restored (
          restore_private_key_secure text subtle later
            (reload (save_private_key_secure text subtle b key true s)))
        ≡ some (bytes_at s.heap key)
  unfolding reload
  restore-save_persistent b later key s bytes here there same put got =
      let plain = bytes_at s.heap key in
      let (e, stored, read) = put-get b later plain bytes here there same put got in
      rw (save_persistent b key s e stored)
        (restored-database later (reload (with_entry key e s)) plain refl (simp storage_laws) read)

  -- A failure of the database while the key is saved leaves an older entry in it. After a reload, with the
  -- database at work again, it is the older key that is given back, and not the one that was saved.
  pub restore-save_stale :
      (b later : Browser) (key : ℕ) (s : Store) (old : Entry) (stale : Bytes) {c : CryptoError}
      → s.indexed_db ≡ some old
      → put_key text subtle b (bytes_at s.heap key) ≡ err c
      → get_key text subtle later (some old) ≡ ok (some stale)
      → restored (
          restore_private_key_secure text subtle later
            (reload (save_private_key_secure text subtle b key true s)))
        ≡ some stale
  unfolding reload
  restore-save_stale b later key s old stale held failed read = rw (save_fallback b key s failed) (
      restored-database later (reload (with_fallback key (text.btoa (bytes_at s.heap key)) s)) stale
        refl (simp storage_laws) (rw held read))

  -- Without a database at either time, the key goes through `localStorage`.
  pub restore-save_fallback :
      (b later : Browser) (key x : ℕ) (plain : Bytes) (s : Store) {c d : CryptoError}
      → bytes_at s.heap key ≡ x ∷ plain
      → AreBytes (x ∷ plain)
      → put_key text subtle b (bytes_at s.heap key) ≡ err c
      → get_key text subtle later s.indexed_db ≡ err d
      → restored (
          restore_private_key_secure text subtle later
            (reload (save_private_key_secure text subtle b key true s)))
        ≡ some (x ∷ plain)
  unfolding reload restore_persistent
  restore-save_fallback b later key x plain s e bytes failed unread =
      let saved = reload (with_fallback key (text.btoa (bytes_at s.heap key)) s) in
      let item : get_item saved.local_storage "private_key" ≡ some (text.btoa (x ∷ plain)) =
        simp storage_laws (ap (λ p. some (text.btoa p)) e) in
      rw
        (
          save_fallback b key s failed,
          restore_as_persistent later saved refl (simp storage_laws),
          restore_persistent,
          unread,
        )
        (restore_from_local-btoa x plain saved bytes item)

  -- A save with "remember me" that the database takes leaves an older key in `localStorage`, where a save
  -- without it or a fallback had put it in plain base64.
  pub save_persistent-leaves_plain :
      (b : Browser) (key : ℕ) (s : Store) (e : Entry)
      → put_key text subtle b (bytes_at s.heap key) ≡ ok e
      → get_item (save_private_key_secure text subtle b key true s).local_storage "private_key"
        ≡ get_item s.local_storage "private_key"
  save_persistent-leaves_plain b key s e h = rw (save_persistent b key s e h) (simp storage_laws)
