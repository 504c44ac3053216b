-- ===== src/Logout/Tests.antt =====
-- The theorems on logout at concrete inputs.
use zero_mes.Common.{◌≡◌, true, false, none, some, [], ◌∷◌, replicate}
use zero_mes.Crypto.Samples.{plain_encoding, plain_subtle}
use zero_mes.Crypto.Storage.{Browser, has_stored_key_secure}
use zero_mes.Socket.State.{Runtime}
use zero_mes.Socket.Client.{Location, new_client}
use zero_mes.Api.Http.{Network}
use zero_mes.Logout.{App, perform_logout}
use zero_mes.Logout.Complete.{perform_logout-forgets}

abbrev here : Location
here = record { protocol = "https:"; host = "chat.example" }

abbrev client : Runtime
client = new_client none here true

-- A server that does not answer, and a browser without a database.
abbrev lost : Network
lost = record {
  base_url = "https://chat.example/api";
  fetch = λ init. none;
  search_params = λ params. "";
  stringify = λ j. "";
}

abbrev broken : Browser
broken = record {
  window = record { defined = true; has_crypto = true; has_subtle = true; secure = true };
  opens = false;
  succeeds = false;
  fingerprint = "Firefox";
  random = replicate 12 1;
  now = "0";
}

abbrev app : App
app = record {
  clients = record { current = some client; retired = [] };
  store = record {
    cached_private_key = some 0;
    heap = replicate 32 7 ∷ [];
    local_storage = ("private_key", "QUJD") ∷ ("key_storage_type", "session") ∷ [];
    session_storage = [];
    indexed_db = none;
  };
}

perform_logout-forgets_example :
    has_stored_key_secure plain_encoding plain_subtle
      (perform_logout plain_encoding plain_subtle lost broken app).0.store
    ≡ false
perform_logout-forgets_example =
    (perform_logout-forgets plain_encoding plain_subtle lost broken broken app).3
