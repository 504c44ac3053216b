-- ===== src/Api/Tests.antt =====
-- The theorems on the requests of client.ts at concrete inputs.
use zero_mes.Common.{ℕ, ◌≡◌, refl, Bool, true, false, some}
use zero_mes.Json.{
  Json, str, obj, arr, nil, cons, field, end, member, get_field, truthy, or_default,
}
use zero_mes.Api.Http.{
  api_error, user_not_found, ok, err, no_config, Network, spread, request_url, request_init,
  error_data, failed, request, get,
}
use zero_mes.Api.Http.Requests.{request_ok_iff}
use zero_mes.Api.Auth.{get_user_public_key, is_missing, first_item}

-- A server that answers one request with a JSON value.
abbrev server : Bool → ℕ → Json → Network
server fine status j = record {
  base_url = "https://chat.example/api";
  fetch = λ init. some (record { ok = fine; status = status; json = some j });
  search_params = λ params. "id=u2";
  stringify = λ v. "{}";
}

abbrev bob : Json
bob = obj (field "public_key" (str "aa") end)

abbrev users : Json → Json
users found = obj (field "users" found end)

key_tests :
    (get_user_public_key (server true 200 (users (arr (cons bob nil)))) "u2" ≡ ok (some (str "aa")))
    × (get_user_public_key (server true 200 (users (arr nil))) "u2" ≡ err (user_not_found "u2"))
    × (get_user_public_key (server false 401 (obj (field "error" (str "expired") end))) "u2"
        ≡ err (api_error (str "expired") 401))
unfolding get_user_public_key get request failed error_data request_init request_url spread
    is_missing first_item member get_field truthy or_default
key_tests = (refl, refl, refl)

request_ok_iff_example : request (server true 200 bob) "/auth/search" no_config ≡ ok bob
request_ok_iff_example =
    (request_ok_iff (server true 200 bob) "/auth/search" no_config bob).1
      (record { ok = true; status = 200; json = some bob }, refl, refl, refl)
