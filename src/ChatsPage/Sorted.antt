-- ===== src/ChatsPage/Sorted.antt =====
-- The list of chats after the confirmation of a message of ours.
use zero_mes.Common.{
  ◌≡◌, refl, non_empty, none, some, true, Option, map, All, Bool-cases, inl, inr, String, is_some,
}
use mathlib.Core.List.{Perm}
use mathlib.Core.List.Perm
use zero_mes.Crypto.Primitives.{Bytes, Units, Encoding, Subtle, Curve, JsonText}
use zero_mes.Crypto.Encryption as Encryption
use zero_mes.Crypto.Encryption.{Result, ok, err}
use zero_mes.Dates.{Clock}
use zero_mes.ChatsPage.{Chat, Page, utf16, find_chat}
use zero_mes.ChatsPage.Chats.{time, with_message}
use zero_mes.ChatsPage.Handlers.{
  Payload, Server, message_time, read_message, sent_in, sent_to, on_message_sent,
}
use zero_mes.ChatsPage.Order.{IsTimed, IsDescending, show_message-IsDescending, show_message-Perm}

module _ (clock : Clock) (browser : Encryption.Window) (enc : Encoding) (subtle : Subtle)
    (curve : Curve) (json : JsonText) where
  -- The two pages have the same chats, the first in order.
  abbrev pub IsSorted : Page → Page → Type 0
  IsSorted after before =
      IsDescending clock after.chats
      × Perm (map (λ c. c.id) after.chats) (map (λ c. c.id) before.chats)

  same-IsSorted : (page : Page) → IsDescending clock page.chats → IsSorted page page
  same-IsSorted page h = (h, Perm.refl (map (λ c. c.id) page.chats))

  sent_in-IsSorted :
      (private_key : Bytes) (server : Server) (now id : String) (p : Payload) (page : Page)
      (o : Option Chat)
      → is_some (clock.parse (utf16 (message_time now p))) ≡ true
      → All (IsTimed clock) page.chats
      → IsDescending clock page.chats
      → IsSorted
          (sent_in clock browser enc subtle curve json private_key server now id p page o)
          page
  unfolding sent_in IsTimed time
  sent_in-IsSorted private_key server now id p page none valid t h = same-IsSorted page h
  sent_in-IsSorted private_key server now id p page (some c) valid t h =
      let update = λ (text : Units). with_message text (message_time now p) in
      let r =
        read_message clock browser enc subtle curve json private_key server.public_key
          p.encrypted_content in
      (
        show_message-IsDescending clock update id r page.chats (λ text c k. valid) t h,
        show_message-Perm clock (λ c. c.id) update id r page.chats (λ text c. refl),
      )

  sent_to-IsSorted :
      (private_key : Bytes) (server : Server) (now : String) (p : Payload) (page : Page)
      (o : Option String)
      → is_some (clock.parse (utf16 (message_time now p))) ≡ true
      → All (IsTimed clock) page.chats
      → IsDescending clock page.chats
      → IsSorted (sent_to clock browser enc subtle curve json private_key server now p page o) page
  unfolding sent_to
  sent_to-IsSorted private_key server now p page none valid t h = same-IsSorted page h
  sent_to-IsSorted private_key server now p page (some id) valid t h =
      elim (Bool-cases (non_empty id)) [
        | inl e ↦
            rw e (
              sent_in-IsSorted private_key server now id p page (find_chat id page.chats) valid t h)
        | inr e ↦ rw e (same-IsSorted page h)
      ]

  -- After the confirmation of a message of ours, the list has the same chats in some order, and is by time, the latest first,
  -- whether the message was read or not: when it was so before, all times in the list are valid, and the time of the message is.
  pub on_message_sent-IsSorted :
      (private_key : Bytes) (server : Server) (now : String) (p : Payload) (page : Page)
      → is_some (clock.parse (utf16 (message_time now p))) ≡ true
      → All (IsTimed clock) page.chats
      → IsDescending clock page.chats
      → IsSorted
          (on_message_sent clock browser enc subtle curve json private_key server now p page)
          page
  unfolding on_message_sent
  on_message_sent-IsSorted private_key server now p page valid t h =
      sent_to-IsSorted private_key server now p page p.chat_id valid t h
