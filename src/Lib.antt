-- ===== src/Lib.antt =====
-- ZeroMes is an end-to-end encrypted messenger. Its browser client (src/frontend/src) derives
-- keys from the password, encrypts messages and chat keys, keeps the private key in the browser,
-- and talks to the gateway over HTTP and over one WebSocket. This library models that client's
-- logic, with what its React components do to their states, and proves what makes it correct.
--
-- How the parts interact: a page derives a key pair (src/frontend/src/lib/crypto/keys.ts over
-- src/frontend/src/lib/crypto/ecc.ts) and saves the private key
-- (src/frontend/src/lib/crypto/secureStorage.ts); a chat key is agreed or decrypted and messages
-- are encrypted with it (src/frontend/src/lib/crypto/encryption.ts,
-- src/frontend/src/lib/crypto/messageDecryption.ts); the calls of
-- src/frontend/src/lib/api/auth.ts go over src/frontend/src/lib/api/client.ts, those of
-- src/frontend/src/lib/api/messages.ts over the client of src/frontend/src/lib/api/websocket.ts,
-- each with a handler and a timeout of its own; src/frontend/src/lib/utils/logout.ts resets all
-- of it.
--
-- The modules:
-- - Common, Json: shared names, lists over the native numbers, the browser's Storage as an
--   association list, JSON values with member access, truthiness, || and ?? as the code uses
--   them.
-- - Crypto.Primitives: the interfaces of what the code only calls: SubtleCrypto, TextEncoder and
--   btoa, JSON text, the curve and the hash. Each is a record of functions with the laws that are
--   documented for them, and Crypto.Samples has concrete functions that satisfy the laws.
-- - Crypto.Hex, Crypto.Ecc: src/frontend/src/lib/crypto/ecc.ts (toHex, fromHex with the parsing
--   of parseInt, toBase64, fromBase64, derivePrivateKey, derivePublicKey, computeSharedSecret,
--   isValidPublicKey) and generateKeyPair and getPublicKeyFromPrivate of
--   src/frontend/src/lib/crypto/keys.ts. The rounds of hashing, 10000 by default, are a
--   structural recursion.
-- - Crypto.Encryption: src/frontend/src/lib/crypto/encryption.ts,
--   src/frontend/src/lib/crypto/utils.ts, src/frontend/src/lib/crypto/messageDecryption.ts. A
--   promise that rejects is `err`; the random bytes that are drawn are arguments; bytes are
--   numbers below 256, and a store into a Uint8Array takes the remainder by 256.
-- - Crypto.Storage: src/frontend/src/lib/crypto/secureStorage.ts and the functions of
--   src/frontend/src/lib/crypto/keys.ts that pass on to it. The cached key, localStorage,
--   sessionStorage and the entry of IndexedDB are one state. Arrays are places in a heap, since a
--   wipe is seen by all who hold the array. The behaviour of the browser in a call (does the
--   database open, does its request succeed, the fingerprint) is an argument.
-- - Socket.State, Socket.Client, Socket.Events: src/frontend/src/lib/api/websocket.ts. The fields
--   of the class, the sockets that it has made, its running timers and a trace of what it called
--   and sent are the record Runtime; there is one function per method. `deliver` says what an
--   event does (a call of a method, an event of a socket, a timer that fires) and `run` goes
--   through a history, so every theorem about `run` is about all interleavings. A socket closes
--   only when the browser says so, also after close(). The attempts are bounded by 5, the delay
--   by 30 s, as in the code.
-- - Api.Types, Api.Http, Api.Auth: src/frontend/src/types/api.ts,
--   src/frontend/src/lib/api/client.ts, src/frontend/src/lib/api/auth.ts. What the server sends
--   is a JSON value, since the code casts it without a check.
-- - Api.Messages: src/frontend/src/lib/api/messages.ts. Api.Messages.Frames has the frame and the
--   handler of each of the eight calls; a Session is one WebSocket client with all calls that
--   were begun on it, and `step` begins a call, lets a timeout of 5 s fire, or lets something
--   happen to the socket. A call begins when waitForConnection has resolved; that promise itself
--   is part of Socket.
-- - Logout: src/frontend/src/lib/utils/logout.ts.
-- - Viewport: src/frontend/src/utils/viewport.ts, as a state that answers the events of the
--   window.
-- - Dates: src/frontend/src/utils/dateUtils.ts, on code units; what the Date constructor makes of
--   a text, the present time, the days of the time zone and the texts of the locale are
--   parameters.
-- - ChatWindow: src/frontend/src/components/ChatWindow.tsx. A handler that awaits is two
--   functions, up to the call and from its answer on; ChatWindow.Frames has the handler of the
--   WebSocket's frames, each of which gives a change of the list, ChatWindow.Awaiting its calls
--   that wait for a decryption while others go on, ChatWindow.Actions and ChatWindow.Controls
--   what the user and the effects do. ChatWindow.View has the conversation that a window shows.
-- - MessageList: src/frontend/src/components/VirtualizedMessageList.tsx.
-- - ChatsPage: src/frontend/src/pages/ChatsPage.tsx. ChatsPage.Chats has the updates of the list,
--   ChatsPage.Keys the keys and previews and loadChats, ChatsPage.Handlers and
--   ChatsPage.Navigation the handlers; the answers of the server are arguments. `sort` is a
--   stable insertion, which is what the language promises for a comparator that is an order.
-- - Account: src/frontend/src/pages/LoginPage.tsx and src/frontend/src/pages/RegisterPage.tsx;
--   Account.Change: src/frontend/src/pages/ChangePasswordPage.tsx and
--   src/frontend/src/components/SearchModal.tsx.
-- - Interface: src/frontend/src/components/ToastContainer.tsx,
--   src/frontend/src/components/Toast.tsx, src/frontend/src/components/ThemeToggle.tsx,
--   src/frontend/src/components/ContextMenu.tsx, src/frontend/src/pages/HomePage.tsx. The
--   scrolling of src/frontend/src/components/VirtualizedChatList.tsx is in ChatsPage.Navigation.
--
-- Proofs are in child modules named for what they prove (Socket.Invariant, Socket.Reachable,
-- Socket.Waits, Socket.Lifetime, Socket.Settled, Socket.Closing, Crypto.Encryption.RoundTrip,
-- Crypto.Storage.Restore, Api.Messages.Outcomes, ChatWindow.Refinement, ChatsPage.Reachable and
-- so on), and runs at concrete inputs in the modules called Tests. Every recursion is structural:
-- no function needs fuel.
--
-- Not modelled: what React renders, when its effects run and its subscriptions end; components
-- that only render; console output, except how the server call of a logout ended; what the
-- handlers of the application do when they are called; a localStorage that refuses a write;
-- delays, except as the numbers that the timers are set with; the Go services behind the gateway.
pub mod Common
pub mod Json
pub mod Crypto
pub mod Socket
pub mod Api
pub mod Logout
pub mod Viewport
pub mod Dates
pub mod ChatWindow
pub mod MessageList
pub mod ChatsPage
pub mod Account
pub mod Interface
