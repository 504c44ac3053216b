-- ===== src/Logout.antt =====
-- src/frontend/src/lib/utils/logout.ts: the logout of the whole client, over the server call, the WebSocket
-- and the key storage. What it writes to the console is left out, except how the server call ended.
pub mod Complete
mod Tests
use zero_mes.Common.{[]}
use zero_mes.Crypto.Primitives.{Encoding, Subtle}
use zero_mes.Crypto.Storage.{Store, Browser, clear_keys}
use zero_mes.Socket.Events.{Singleton, reset_web_socket_client}
use zero_mes.Api.Http.{Network, Result}
use zero_mes.Api.Auth.{logout}

-- What a logout finds: the module's WebSocket client, and the browser's stores.
pub record App : Type 0 where
  pub clients : Singleton
  pub store : Store

module _ (text : Encoding) (subtle : Subtle) where
  -- Each step has its own `try`, so a failed server call stops nothing. It is kept beside the state.
  unfoldable pub perform_logout : Network → Browser → App → App × Result (Unit {0})
  perform_logout net b app =
      let server = logout net in
      let clients = reset_web_socket_client app.clients in
      let store = clear_keys text subtle b app.store in
      let local_cleared = record store { local_storage = [] } in
      let session_cleared = record local_cleared { session_storage = [] } in
      (record { clients = clients; store = session_cleared }, server)
