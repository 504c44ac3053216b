-- ===== src/ChatsPage/Kept.antt =====
-- What the handlers of ChatsPage.tsx leave of the companions of the chats.
use mathlib.Core.List.{Mem, not-mem-nil, eq-or-mem_of_mem-cons}
use mathlib.Core.Logic.Or
use mathlib.Core.HLevel.{⊥_prop}
use zero_mes.Common.{
  ◌≡◌, refl, ◌∙◌, Bool, true, false, Option, none, some, List, [], ◌∷◌, map, str_eq, non_empty,
  arith, eq_iff, Bool-cases, inl, inr, String,
}
use zero_mes.Crypto.Primitives.{Bytes, Units, Encoding, Subtle, Curve, JsonText}
use zero_mes.Crypto.Encryption as Encryption
use zero_mes.Crypto.Encryption.{Result, ok, err}
use zero_mes.ChatsPage.{Chat, find_companion}
use zero_mes.ChatsPage.Chats.{OnlineStatus, find_status, with_status, update_statuses, reset_unread}
use zero_mes.ChatsPage.Keys.{
  Answers, Loaded, with_key, saved_key, keyed, fetched, chat_key_with, companion_bytes,
  generate_key, last_preview, previewed, with_preview, with_login, load_chat,
}
use zero_mes.ChatsPage.Order.{map-at_chat}

abbrev pub companions : List Chat → List String
companions = map (λ c. c.companion_id)

with_status-companion :
    (s : Option OnlineStatus) (c : Chat) → (with_status s c).companion_id ≡ c.companion_id
with_status-companion none c = refl
with_status-companion (some s) c = refl

pub companions-statuses :
    (ss : List OnlineStatus) (cs : List Chat) → companions (update_statuses ss cs) ≡ companions cs
unfolding update_statuses
companions-statuses ss [] = refl
companions-statuses ss (c ∷ cs) =
    rw (with_status-companion (find_status c.companion_id ss) c, companions-statuses ss cs)

pub companions-reset :
    (id : String) (cs : List Chat) → companions (reset_unread id cs) ≡ companions cs
unfolding reset_unread
companions-reset id cs =
    map-at_chat (λ c. c.companion_id) id (λ c. record c { unread_count = some 0 }) cs (λ c. refl)

pub not_mem-companions :
    (id : String) (cs : List Chat) → find_companion id cs ≡ none → ¬ Mem id (companions cs)
unfolding find_companion
not_mem-companions id [] e m = not-mem-nil m
not_mem-companions id (c ∷ cs) e m = elim (Bool-cases (str_eq c.companion_id id)) [
  | inl s ↦ ground (arith, e, s)
  | inr s ↦
      let differs : ¬ (id ≡ c.companion_id) =
        (λ i. ground (arith, s, i, eq_iff c.companion_id id)) in
      let rest : find_companion id cs ≡ none = ground (arith, e, s) in
      Or.elim ⊥_prop (eq-or-mem_of_mem-cons m) differs (not_mem-companions id cs rest)
]

with_login-companion :
    (l : Option (Option String)) (c : Chat) → (with_login l c).companion_id ≡ c.companion_id
with_login-companion none c = refl
with_login-companion (some l) c = refl

with_preview-companion :
    (r : Result Units) (c : Chat) → (with_preview r c).companion_id ≡ c.companion_id
with_preview-companion (ok t) c = refl
with_preview-companion (err _) c = refl

module _ (browser : Encryption.Window) (enc : Encoding) (subtle : Subtle) (curve : Curve)
    (json : JsonText) where
  with_key-companion :
      (saved : Bool) (c : Chat) (r : Result String)
      → (with_key browser enc subtle curve json saved c r).companion_id ≡ c.companion_id
  with_key-companion saved c (err _) = refl
  with_key-companion true c (ok k) = refl
  with_key-companion false c (ok k) = refl

  keyed-companion :
      (key : Bytes) (a : Answers) (c : Chat) (companion_key : Bytes) (r : Result Bytes)
      → (keyed browser enc subtle curve json key a c companion_key r).chat.companion_id
        ≡ c.companion_id
  unfolding keyed
  keyed-companion key a c companion_key (err _) = refl
  keyed-companion key a c companion_key (ok k) =
      with_key-companion a.saved c (saved_key browser enc subtle curve json a.nonce key k)

  fetched-companion :
      (key : Bytes) (a : Answers) (c : Chat) (r : Result Bytes)
      → (fetched browser enc subtle curve json key a c r).chat.companion_id ≡ c.companion_id
  unfolding fetched
  fetched-companion key a c (err _) = refl
  fetched-companion key a c (ok k) =
      keyed-companion key a c k (chat_key_with browser enc subtle curve json key k)

  generate-companion :
      (key : Bytes) (a : Answers) (c : Chat)
      → (generate_key browser enc subtle curve json key a c).chat.companion_id ≡ c.companion_id
  unfolding generate_key
  generate-companion key a c = elim (Bool-cases (non_empty c.encrypted_key)) [
    | inl e ↦ rw e
    | inr e ↦ rw e (
        fetched-companion key a c
          (companion_bytes browser enc subtle curve json a.key_of_companion))
  ]

  previewed-companion :
      (key : Bytes) (a : Answers) (l : Loaded) (o : Option String) (c : Chat)
      → (previewed browser enc subtle curve json key a l o c).companion_id ≡ c.companion_id
  unfolding previewed
  previewed-companion key a l none c = refl
  previewed-companion key a l (some s) c = elim (Bool-cases (non_empty s)) [
    | inl e ↦ rw e (with_preview-companion (last_preview browser enc subtle curve json key a l s) c)
    | inr e ↦ rw e
  ]

  load_chat-companion :
      (key : Bytes) (a : Answers) (c : Chat)
      → (load_chat browser enc subtle curve json key a c).companion_id ≡ c.companion_id
  unfolding load_chat
  load_chat-companion key a c =
      let l = generate_key browser enc subtle curve json key a c in
      previewed-companion key a l c.last_message (with_login a.login l.chat)
      ∙ with_login-companion a.login l.chat
      ∙ generate-companion key a c

  pub companions-load :
      (key : Bytes) (answers : Chat → Answers) (cs : List Chat)
      → companions (map (λ c. load_chat browser enc subtle curve json key (answers c) c) cs)
        ≡ companions cs
  companions-load key answers [] = refl
  companions-load key answers (c ∷ cs) =
      rw (load_chat-companion key (answers c) c, companions-load key answers cs)
