-- ===== src/Crypto/Storage/Clear.antt =====
-- clearKeysSecure of secureStorage.ts, which logout calls.
use zero_mes.Common.{
  ℕ, ◌≡◌, refl, ap, ◌∙◌, false, none, some, length, get_elem?, replicate, get_item, storage_laws,
  get_elem?-set_held, arith,
}
use zero_mes.Crypto.Primitives.{Bytes, Encoding, Subtle}
use zero_mes.Crypto.Storage.{
  Store, Browser, bytes_at, restore_private_key_secure, has_stored_key_secure, wipe,
  clear_keys_secure, is_persistent_storage_enabled, reload,
}

module _ (text : Encoding) (subtle : Subtle) where
  pub cached-wipe : (s : Store) → (wipe text subtle s).cached_private_key ≡ none
  unfolding wipe
  cached-wipe s = ground arith

  -- With nothing cached and no storage type, there is no key.
  pub empty_store :
      (later : Browser) (s : Store)
      → s.cached_private_key ≡ none
      → get_item s.local_storage "key_storage_type" ≡ none
      → (has_stored_key_secure text subtle s ≡ false)
        × (is_persistent_storage_enabled text subtle s ≡ false)
        × (restore_private_key_secure text subtle later s ≡ (s, none))
  unfolding has_stored_key_secure is_persistent_storage_enabled restore_private_key_secure
  empty_store later s c e = ground arith

  -- After clearKeys no key is cached or stored, "remember me" is off, and a restore gives nothing, before
  -- and after a reload, also where the database could not be cleared.
  pub clear_keys_secure-forgets :
      (b later : Browser) (s : Store)
      → let q = clear_keys_secure text subtle b s in
        (has_stored_key_secure text subtle q ≡ false)
        × (is_persistent_storage_enabled text subtle q ≡ false)
        × (get_item q.local_storage "private_key" ≡ none)
        × (get_item q.session_storage "private_key" ≡ none)
        × (restore_private_key_secure text subtle later q ≡ (q, none))
        × (restore_private_key_secure text subtle later (reload q) ≡ (reload q, none))
  unfolding clear_keys_secure reload
  clear_keys_secure-forgets b later s =
      let q = clear_keys_secure text subtle b s in
      let cached = cached-wipe s in
      let type : get_item q.local_storage "key_storage_type" ≡ none = simp storage_laws in
      let (stored, persistent, restore) = empty_store later q cached type in
      let (_, _, restore_later) = empty_store later (reload q) refl type in
      (stored, persistent, simp storage_laws, simp storage_laws, restore, restore_later)

  -- The array that was cached holds zeros afterwards, for all who still hold it.
  pub clear_keys_secure-wipes :
      (b : Browser) (s : Store) (key : ℕ) (old : Bytes)
      → s.cached_private_key ≡ some key
      → get_elem? s.heap key ≡ some old
      → get_elem? (clear_keys_secure text subtle b s).heap key ≡ some (replicate (length old) 0)
  unfolding clear_keys_secure wipe
  clear_keys_secure-wipes b s key old c e =
      let same : bytes_at s.heap key ≡ old = ground arith in
      rw (c, wipe)
        (get_elem?-set_held s.heap key (replicate (length (bytes_at s.heap key)) 0) e
          ∙ ap (λ p. some (replicate (length p) 0)) same)
