-- ===== src/Account/Login.antt =====
-- What a log-in, a registration and a change of the password leave in the browser.
use zero_mes.Common.{get_item, ◌⊎◌, inl, inr, ◌≡◌, refl, false, some, none, [], get_item}
use zero_mes.Json.{Json}
use zero_mes.Crypto.Storage.{save_private_key_secure}
use zero_mes.Crypto.Primitives.{Encoding, Subtle, Curve}
use zero_mes.Crypto.Ecc.{KeyPair, generate_key_pair}
use zero_mes.Crypto.Storage.{Entry, Browser, save_private_key_secure, restore_private_key}
use zero_mes.Crypto.Samples.Texts.{text_of}
use zero_mes.Crypto.Encryption as Encryption
use zero_mes.Api.Http as Http
use zero_mes.Api.Http.{Network, Error}
use zero_mes.Api.Auth.{login}
use zero_mes.Logout.{perform_logout}
use zero_mes.Logout.Complete.{perform_logout-forgets}
use zero_mes.Account.{
  Form, rejected, nothing, check_login, trimmed, iterations, log_in, submit_login,
}

put_cases :
    (r : Encryption.Result Entry)
    → ((e : Entry) × (r ≡ Encryption.ok e))
      ⊎ ((e : Encryption.CryptoError) × (r ≡ Encryption.err e))
put_cases (Encryption.ok e) = inl (e, refl)
put_cases (Encryption.err e) = inr (e, refl)

module _ (enc : Encoding) (subtle : Subtle) (curve : Curve) where
  -- A log-in that the server refuses leaves nobody logged in: the page stays and shows the server's error, localStorage and
  -- sessionStorage are empty and no private key is restored, also where another user was logged in before. The form is
  -- filled in, and the password gives a key pair.
  pub submit_login-refused :
      (net : Network) (b later : Browser) (f : Form) (pair : KeyPair) (e : Error)
      → check_login f ≡ nothing
      → generate_key_pair enc curve f.password iterations ≡ some pair
      → login net (record { login = trimmed f.login; auth_hash = text_of pair.auth_hash })
        ≡ Http.err e
      → ((submit_login enc subtle curve net b f).error ≡ rejected e)
        × ((submit_login enc subtle curve net b f).route ≡ f.route)
        × ((submit_login enc subtle curve net b f).app.store.local_storage ≡ [])
        × ((submit_login enc subtle curve net b f).app.store.session_storage ≡ [])
        × (restore_private_key enc subtle later (submit_login enc subtle curve net b f).app.store
            ≡ ((submit_login enc subtle curve net b f).app.store, none))
  unfolding submit_login log_in restore_private_key
  submit_login-refused net b later f pair e ready made refused =
      let cleared = record f {
        error = nothing;
        success_message = "";
        app = (perform_logout enc subtle net b f.app).0;
      } in
      let ends : submit_login enc subtle curve net b f
          ≡ record cleared { error = rejected e; loading = false } =
        rw (ready, made, refused) in
      let (_, local, session, _, _, none_left, _) =
        perform_logout-forgets enc subtle net b later f.app in
      rw ends (refl, refl, local, session, none_left)
