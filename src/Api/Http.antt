-- ===== src/Api/Http.antt =====
-- src/frontend/src/lib/api/client.ts. `fetch`, URLSearchParams and JSON.stringify are parameters.
pub mod Requests
use Prim.Native.String.{◌++◌ as append}
use zero_mes.Common.{
  ℕ, String, Bool, true, false, not, Option, none, some, List, [], ◌∷◌, Storage, set_item,
  if◌then◌else◌,
}
use zero_mes.Json.{Json, Value, str, obj, field, end, member, truthy, or_default}

-- How a promise of the API rejects: an ApiError, a TypeError of the code, or a user that is not there.
pub data Error : Type 0 where
  api_error : Json → ℕ → Error
  type_error : Error
  user_not_found : String → Error

pub data Result {ℓ} (A : Type ℓ) : Type ℓ where
  ok : A → Result A
  err : Error → Result A

infixl 5 ◌>>=◌
abbrev pub ◌>>=◌ {ℓ κ} : {A : Type ℓ} {B : Type κ} → Result A → (A → Result B) → Result B
ok a >>= f = f a
err e >>= f = err e

-- RequestConfig; a field that is `undefined` is `none`.
pub record Config : Type 0 where
  pub params : Option (List (String × String))
  pub headers : Storage
  pub method : Option String
  pub body : Option String

abbrev pub no_config : Config
no_config = record { params = none; headers = []; method = none; body = none }

-- What `fetch` is called with.
pub record Init : Type 0 where
  pub url : String
  pub method : Option String
  pub body : Option String
  pub headers : Storage
  pub credentials : String

-- `json` is `none` where response.json() rejects.
pub record Response : Type 0 where
  pub ok : Bool
  pub status : ℕ
  pub json : Option Json

-- `fetch` rejects with `none`.
pub record Network : Type 0 where
  pub base_url : String
  pub fetch : Init → Option Response
  pub search_params : List (String × String) → String
  pub stringify : Json → String

-- `{ ...base, ...overrides }`, of which the later items win
unfoldable pub spread : Storage → Storage → Storage
spread base [] = base
spread base ((name, value) ∷ rest) = spread (set_item name value base) rest

module _ (net : Network) where
  unfoldable pub request_url : String → Option (List (String × String)) → String
  request_url endpoint none = append net.base_url endpoint
  request_url endpoint (some params) =
      append (append (append net.base_url endpoint) "?") (net.search_params params)

  unfoldable pub request_init : String → Config → Init
  unfolding request_url spread
  request_init endpoint config = record {
    url = request_url endpoint config.params;
    method = config.method;
    body = config.body;
    headers = spread (("Content-Type", "application/json") ∷ []) config.headers;
    credentials = "include";
  }

  abbrev network_error : Error
  network_error = api_error (str "Network error") 0

  -- The body of an answer that is not OK; one that is no JSON becomes `{ error: 'Unknown error' }`.
  unfoldable pub error_data : Option Json → Json
  error_data none = obj (field "error" (str "Unknown error") end)
  error_data (some j) = j

  -- `throw new ApiError(errorData.error || …)`; reading `error` of `null` throws before that, and the
  -- outer catch turns it into a network error.
  unfoldable pub failed : Response → Error
  unfolding error_data
  failed r = elim (member "error" (some (error_data r.json))) [
    | none ↦ network_error
    | some e ↦ api_error (or_default e (str "Request failed")) r.status
  ]

  unfoldable pub request : String → Config → Result Json
  request endpoint config = elim (net.fetch (request_init endpoint config)) [
    | none ↦ err network_error
    | some r ↦
        if not r.ok
        then err (failed r)
        else elim r.json [ none ↦ err network_error | some j ↦ ok j ]
  ]

  abbrev body_of : Value → Option String
  body_of none = none
  body_of (some j) = if truthy (some j) then some (net.stringify j) else none

  unfoldable pub get : String → Config → Result Json
  get endpoint config = request endpoint (record config { method = some "GET" })

  unfoldable pub post : String → Value → Config → Result Json
  post endpoint input config =
      request endpoint (record config { method = some "POST"; body = body_of input })

  unfoldable pub put : String → Value → Config → Result Json
  put endpoint input config =
      request endpoint (record config { method = some "PUT"; body = body_of input })

  unfoldable pub delete : String → Config → Result Json
  delete endpoint config = request endpoint (record config { method = some "DELETE" })
