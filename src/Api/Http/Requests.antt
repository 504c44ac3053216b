-- ===== src/Api/Http/Requests.antt =====
-- What a request of client.ts sends, and every way in which it ends.
use zero_mes.Common.{
  ◌≡◌, ◌↔◌, ◌⊎◌, inl, inr, String, true, false, Option, some, Option-cases, Bool-cases, arith,
}
use zero_mes.Json.{Json, str, member, or_default}
use zero_mes.Api.Http.{
  Error, api_error, ok, err, Config, Response, Network, request_init, error_data, failed, request,
}

module _ (net : Network) (endpoint : String) (config : Config) where
  abbrev pub answer : Option Response
  answer = net.fetch (request_init net endpoint config)

  -- A request succeeds with a value exactly when the server answers with an OK status and a body that is
  -- that JSON.
  pub request_ok_iff :
      (j : Json)
      → (request net endpoint config ≡ ok j)
        ↔ ((r : Response) × (answer ≡ some r) × (r.ok ≡ true) × (r.json ≡ some j))
  unfolding request
  request_ok_iff j = (to, from)
    where
      to :
          request net endpoint config ≡ ok j
          → (r : Response) × (answer ≡ some r) × (r.ok ≡ true) × (r.json ≡ some j)
      to e = ground arith

      from :
          ((r : Response) × (answer ≡ some r) × (r.ok ≡ true) × (r.json ≡ some j))
          → request net endpoint config ≡ ok j
      from (r, a, b, c) = rw (a, request, b, c)

  -- Every failure is an ApiError: the network's, with status 0, or one with the status of an answer that is
  -- not OK.
  pub request_error :
      (e : Error)
      → request net endpoint config ≡ err e
      → (e ≡ api_error (str "Network error") 0)
        ⊎ ((r : Response) × (m : Json) × (answer ≡ some r)
            × (r.ok ≡ false)
            × (e ≡ api_error m r.status))
  unfolding request failed
  request_error e h = elim (Option-cases answer) [
    | inl lost ↦ inl (ground arith)
    | inr (r, got) ↦ elim (Bool-cases r.ok) [
      | inl fine ↦ inl (ground arith)
      | inr bad ↦ elim (Option-cases (member "error" (some (error_data net r.json)))) [
        | inl threw ↦ inl (ground arith)
        | inr (v, read) ↦ inr (r, or_default v (str "Request failed"), got, bad, ground arith)
      ]
    ]
  ]
