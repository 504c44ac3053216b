-- ===== src/Account/Tests.antt =====
-- The theorems on the account pages for a user "anna" whose server answers at once.
use zero_mes.Common.{
  ◌≡◌, refl, Bool, true, false, none, some, List, [], ◌∷◌, replicate, is_space, arith,
}
use zero_mes.Json.{obj, end, str, member, truthy, or_default}
use zero_mes.Crypto.Primitives.{Bytes}
use zero_mes.Crypto.Hex.{to_hex}
use zero_mes.Crypto.Ecc.{KeyPair, generate_key_pair}
use zero_mes.Crypto.Encryption.{is_crypto_available}
use zero_mes.Crypto.Samples.{plain_encoding, plain_subtle, toy_curve}
use zero_mes.Crypto.Storage.{Browser, request}
use zero_mes.Api.Http as Http
use zero_mes.Api.Http.{Network, Error, api_error}
use zero_mes.Api.Auth.{login}
use zero_mes.ChatWindow.Actions.{is_blank}
use zero_mes.Account.{Form, nothing, check_login, submit_login}
use zero_mes.Account.Change.{KeyOf, renew}
use zero_mes.Account.Passwords.{Renewed, renew-Renewed}
use zero_mes.Account.Login.{submit_login-refused}

abbrev key : Bytes
key = replicate 32 32

abbrev pair : KeyPair
pair = record { private_key = key; public_key = key; auth_hash = to_hex key }

abbrev browser : Browser
browser = record {
  window = record { defined = true; has_crypto = true; has_subtle = true; secure = true };
  opens = true;
  succeeds = true;
  fingerprint = "Firefox";
  random = replicate 12 1;
  now = "0";
}

abbrev form : Form
form = record {
  login = " anna ";
  password = "password";
  confirm_password = "";
  old_password = "";
  remember_me = false;
  loading = false;
  error = nothing;
  success_message = "";
  app = record {
    clients = record { current = none; retired = [] };
    store = record {
      cached_private_key = none;
      heap = [];
      local_storage = ("user_login", "boris") ∷ [];
      session_storage = [];
      indexed_db = none;
    };
  };
  route = none;
}

abbrev server : Bool → Network
server fine = record {
  base_url = "";
  fetch = λ init. some (record { ok = fine; status = 401; json = some (obj end) });
  search_params = λ params. "";
  stringify = λ j. "{}";
}

pair_test : generate_key_pair plain_encoding toy_curve "password" 10000 ≡ some pair
unfolding generate_key_pair toy_curve plain_encoding
pair_test = refl

submit_login-refused_example :
    (submit_login plain_encoding plain_subtle toy_curve
      (server false)
      browser
      form).app.store.local_storage
    ≡ []
unfolding check_login is_blank is_space login Http.post Http.request Http.failed Http.error_data
    Http.request_init Http.request_url Http.spread member truthy or_default
submit_login-refused_example =
    (submit_login-refused plain_encoding plain_subtle toy_curve (server false) browser browser form
      pair (api_error (str "Request failed") 401) refl pair_test refl).2

-- One chat whose key opens, and one whose key is no base64.
abbrev chats : List KeyOf
chats =
    record { companion_id = "boris"; encrypted_key = plain_encoding.btoa (replicate 44 7) }
    ∷ record { companion_id = "carl"; encrypted_key = "☂" }
    ∷ []

renew-Renewed_example :
    Renewed plain_encoding plain_subtle toy_curve browser.window key key chats (
      renew plain_encoding plain_subtle toy_curve browser.window
        (λ c. replicate 12 1)
        key
        key
        chats)
unfolding is_crypto_available
renew-Renewed_example =
    renew-Renewed plain_encoding plain_subtle toy_curve browser.window (λ c. replicate 12 1) key key
      chats refl refl (λ c. (omega arith, refl))
