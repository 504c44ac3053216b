-- ===== src/Crypto/Storage.antt =====
-- src/frontend/src/lib/crypto/secureStorage.ts: where the private key is kept. A Uint8Array is a place in
-- `heap`, so that a wipe is seen by all who hold it. Console output is not modelled, nor a `localStorage`
-- that refuses a write.
pub mod Restore
pub mod Clear
mod Tests
use zero_mes.Common.{
  ℕ, String, Bool, true, false, Option, none, some, List, [], ◌∷◌, ◌++◌, ◌&&◌, ◌||◌, length,
  get_elem?, set, replicate, str_eq, non_empty, Storage, get_item, set_item, remove_item, is_some,
  if◌then◌else◌,
}
use zero_mes.Crypto.Primitives.{Bytes, Encoding, Subtle}
use zero_mes.Crypto.Encryption.{
  Result, ok, err, bad_data, ◌>>=◌, ◌>>◌, or_throw, Window, get_crypto_subtle, store_units,
}

-- What is stored under 'private_key' in the object store of IndexedDB.
pub record Entry : Type 0 where
  pub encrypted : Bytes
  pub iv : Bytes

pub record Store : Type 0 where
  pub cached_private_key : Option ℕ
  pub heap : List Bytes
  pub local_storage : Storage
  pub session_storage : Storage
  pub indexed_db : Option Entry

-- The browser during one call: can the database be opened, and does the request succeed; the
-- fingerprint that the storage key is derived from; the random bytes and the time that are drawn.
pub record Browser : Type 0 where
  pub window : Window
  pub opens : Bool
  pub succeeds : Bool
  pub fingerprint : String
  pub random : Bytes
  pub now : String

abbrev pub salt : Bytes
salt =
    0x73 ∷ 0x65 ∷ 0x63 ∷ 0x75 ∷ 0x72 ∷ 0x65 ∷ 0x6d ∷ 0x65 ∷ 0x73 ∷ 0x73 ∷ 0x65 ∷ 0x6e ∷ 0x67 ∷ 0x65
    ∷ 0x72 ∷ 0x32 ∷ []

-- The array at a place; a place is never dangling.
abbrev pub bytes_at : List Bytes → ℕ → Bytes
bytes_at heap r = elim (get_elem? heap r) [ none ↦ [] | some b ↦ b ]

module _ (text : Encoding) (subtle : Subtle) where
  unfoldable pub derive_storage_key : Browser → Result Bytes
  derive_storage_key b = do
    get_crypto_subtle b.window text subtle
    ok (subtle.pbkdf2 (text.encode b.fingerprint) salt 100000)

  unfoldable pub encrypt_data : Browser → Bytes → Result Entry
  encrypt_data b plain = do
    get_crypto_subtle b.window text subtle
    key ← derive_storage_key b
    ok (record { encrypted = subtle.encrypt key b.random plain; iv = b.random })

  unfoldable pub decrypt_data : Browser → Entry → Result Bytes
  decrypt_data b entry = do
    get_crypto_subtle b.window text subtle
    key ← derive_storage_key b
    or_throw (subtle.decrypt key entry.iv entry.encrypted) bad_data

  -- initDB and one request
  unfoldable pub request : Browser → Result (Unit {0})
  request b = if b.opens && b.succeeds then ok tt else err bad_data

  -- What the `try` of savePrivateKeySecure puts into the database.
  unfoldable pub put_key : Browser → Bytes → Result Entry
  put_key b plain = do entry ← encrypt_data b plain; request b; ok entry

  unfoldable pub save_private_key_secure : Browser → ℕ → Bool → Store → Store
  save_private_key_secure b key true s = elim (put_key b (bytes_at s.heap key)) [
    | ok entry ↦ record s {
      cached_private_key = some key;
      indexed_db = some entry;
      local_storage = set_item "key_storage_type" "persistent" s.local_storage;
    }
    | err _ ↦ record s {
      cached_private_key = some key;
      local_storage =
          set_item "key_storage_type" "persistent"
            (set_item "private_key" (text.btoa (bytes_at s.heap key)) s.local_storage);
    }
  ]
  save_private_key_secure b key false s = record s {
    cached_private_key = some key;
    local_storage = set_item "session_start" b.now (
        set_item "key_storage_type" "session"
          (set_item "private_key" (text.btoa (bytes_at s.heap key)) s.local_storage));
  }

  -- A new array, kept in the cache and returned.
  unfoldable pub found : Bytes → Store → Store × Option ℕ
  found plain s = (
    record s { cached_private_key = some (length s.heap); heap = s.heap ++ plain ∷ [] },
    some (length s.heap),
  )

  -- The key in base64 in `localStorage`; a text that is no base64 is removed.
  unfoldable pub restore_from_local : Store → Store × Option ℕ
  unfolding store_units
  restore_from_local s = elim (get_item s.local_storage "private_key") [
    | none ↦ (s, none)
    | some stored ↦
        if non_empty stored
        then elim (text.atob stored) [
          | some binary ↦ found (store_units binary) s
          | none ↦ (record s { local_storage = remove_item "private_key" s.local_storage }, none)
        ]
        else (s, none)
  ]

  -- The `try` of restorePrivateKeySecure: `ok none` where the database has no entry.
  unfoldable pub get_key : Browser → Option Entry → Result (Option Bytes)
  get_key b none = do request b; ok none
  get_key b (some entry) = do request b; plain ← decrypt_data b entry; ok (some plain)

  unfoldable pub restore_persistent : Browser → Store → Store × Option ℕ
  restore_persistent b s = elim (get_key b s.indexed_db) [
    | ok (some plain) ↦ found plain s
    | _ ↦ restore_from_local s
  ]

  unfoldable pub restore_private_key_secure : Browser → Store → Store × Option ℕ
  restore_private_key_secure b s = elim s.cached_private_key [
    | some key ↦ (s, some key)
    | none ↦ elim (get_item s.local_storage "key_storage_type") [
      | none ↦ (s, none)
      | some type ↦
          if str_eq type "persistent"
          then restore_persistent b s
          else if str_eq type "session"
          then restore_from_local s
          else (s, none)
    ]
  ]

  unfoldable pub has_stored_key_secure : Store → Bool
  has_stored_key_secure s =
      is_some s.cached_private_key
      || elim (get_item s.local_storage "key_storage_type") [ none ↦ false | some t ↦ non_empty t ]

  -- `fill(0)` of the cached array
  unfoldable pub wipe : Store → Store
  wipe s = elim s.cached_private_key [
    | none ↦ s
    | some key ↦ record s {
      cached_private_key = none;
      heap = set s.heap key (replicate (length (bytes_at s.heap key)) 0);
    }
  ]

  unfoldable pub clear_keys_secure : Browser → Store → Store
  clear_keys_secure b s =
      let wiped = wipe s in
      record wiped {
        indexed_db = elim (request b) [ ok _ ↦ none | err _ ↦ wiped.indexed_db ];
        local_storage =
            remove_item "key_storage_type" (remove_item "private_key" wiped.local_storage);
        session_storage =
            remove_item "key_storage_type" (remove_item "private_key" wiped.session_storage);
      }

  unfoldable pub is_persistent_storage_enabled : Store → Bool
  is_persistent_storage_enabled s = elim (get_item s.local_storage "key_storage_type") [
    | none ↦ false
    | some t ↦ str_eq t "persistent"
  ]

-- A reload of the page, or a new tab: the arrays of the old page are gone.
unfoldable pub reload : Store → Store
reload s = record s { cached_private_key = none; heap = [] }

-- The functions of keys.ts that pass on to secureStorage.ts.
module _ (text : Encoding) (subtle : Subtle) where
  unfoldable pub save_private_key : Browser → ℕ → Bool → Store → Store
  save_private_key = save_private_key_secure text subtle

  unfoldable pub restore_private_key : Browser → Store → Store × Option ℕ
  restore_private_key = restore_private_key_secure text subtle

  unfoldable pub has_stored_key : Store → Bool
  has_stored_key = has_stored_key_secure text subtle

  unfoldable pub clear_keys : Browser → Store → Store
  clear_keys = clear_keys_secure text subtle

  unfoldable pub is_remember_me_enabled : Store → Bool
  is_remember_me_enabled = is_persistent_storage_enabled text subtle
