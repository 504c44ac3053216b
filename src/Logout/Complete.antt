-- ===== src/Logout/Complete.antt =====
-- What is left of a user after performLogout.
use zero_mes.Common.{◌≡◌, refl, false, none, [], get_item-nil, arith}
use zero_mes.Crypto.Primitives.{Encoding, Subtle}
use zero_mes.Crypto.Storage.{
  Browser, clear_keys, clear_keys_secure, has_stored_key_secure, restore_private_key_secure,
  is_persistent_storage_enabled, reload,
}
use zero_mes.Crypto.Storage.Clear.{cached-wipe, empty_store}
use zero_mes.Socket.Events.{reset_web_socket_client}
use zero_mes.Api.Http.{Network}
use zero_mes.Logout.{App, perform_logout}

module _ (text : Encoding) (subtle : Subtle) where
  -- After a logout, whether the server answered or not and whether the database could be cleared or not, the
  -- browser's storages are empty, no private key is cached or restored, then or after a reload, and the module
  -- has no client.
  pub perform_logout-forgets :
      (net : Network) (b later : Browser) (app : App)
      → let q = (perform_logout text subtle net b app).0 in
        (q.clients.current ≡ none)
        × (q.store.local_storage ≡ [])
        × (q.store.session_storage ≡ [])
        × (has_stored_key_secure text subtle q.store ≡ false)
        × (is_persistent_storage_enabled text subtle q.store ≡ false)
        × (restore_private_key_secure text subtle later q.store ≡ (q.store, none))
        × (restore_private_key_secure text subtle later (reload q.store) ≡ (reload q.store, none))
  unfolding perform_logout clear_keys clear_keys_secure reset_web_socket_client reload
  perform_logout-forgets net b later app =
      let q = (perform_logout text subtle net b app).0 in
      let (stored, persistent, restore) =
        empty_store text subtle later q.store (cached-wipe text subtle app.store)
          (get_item-nil "key_storage_type") in
      let (_, _, restore_later) =
        empty_store text subtle later (reload q.store) refl (get_item-nil "key_storage_type") in
      (ground arith, refl, refl, stored, persistent, restore, restore_later)
