-- ===== src/ChatsPage/Each.antt =====
-- The handlers of ChatsPage.tsx and the chats of one companion.
use mathlib.Core.List.{Nodup, Nodup-cons}
use mathlib.Core.List.Perm
use zero_mes.Common.{
  ◌≡◌, refl, sym, subst, Bool, true, false, Option, none, some, List, non_empty, str_eq, Bool-cases,
  inl, inr, String, Option-cases,
}
use zero_mes.Crypto.Primitives.{Bytes, Units, Encoding, Subtle, Curve, JsonText}
use zero_mes.Crypto.Encryption as Encryption
use zero_mes.Crypto.Encryption.{Result, ok, err}
use zero_mes.Dates.{Clock}
use zero_mes.ChatsPage.{
  Chat, Page, find_chat, find_companion, selected_among, processed_with, message_key,
}
use zero_mes.ChatsPage.Chats.{OnlineStatus, with_message, with_unread}
use zero_mes.ChatsPage.Keys.{Answers, load_chats, read_preview}
use zero_mes.ChatsPage.Navigation.{handle_select_chat, set_online_statuses}
use zero_mes.ChatsPage.Handlers.{
  Payload, Server, User, message_time, show_message, read_message, bump, on_known_chat, new_key,
  reloaded, started, on_new_chat, by_chat, unless_processed, on_new_message, sent_in, sent_to,
  on_message_sent, created, create_chat, open_chat, handle_new_chat,
}
use zero_mes.ChatsPage.Order.{show_message-Perm}
use zero_mes.ChatsPage.Kept.{
  companions, companions-statuses, companions-reset, companions-load, not_mem-companions,
}

-- No two chats have the same companion.
abbrev pub IsOneEach : List Chat → Type 0
IsOneEach chats = Nodup (companions chats)

-- The list that the server answers with, if it does.
abbrev pub AreOneEach : Option (List Chat) → Type 0
AreOneEach none = Unit
AreOneEach (some chats) = IsOneEach chats

module _ (clock : Clock) where
  show_message-IsOneEach :
      (update : Units → Chat → Chat) (id : String) (r : Result Units) (cs : List Chat)
      → ((text : Units) (c : Chat) → (update text c).companion_id ≡ c.companion_id)
      → IsOneEach cs
      → IsOneEach (show_message clock update id r cs)
  show_message-IsOneEach update id r cs k h =
      Perm.nodup (Perm.symm (show_message-Perm clock (λ c. c.companion_id) update id r cs k)) h

bump-IsOneEach :
    (c : Option Chat) (id : String) (page : Page)
    → IsOneEach page.chats
    → IsOneEach (bump c id page).chats
bump-IsOneEach none id page h = h
bump-IsOneEach (some c) id page h = elim (Bool-cases (str_eq c.id id)) [
  | inl e ↦ rw e h
  | inr e ↦ rw e h
]

module _ (clock : Clock) (browser : Encryption.Window) (enc : Encoding) (subtle : Subtle)
    (curve : Curve) (json : JsonText) where
  pub load_chats-IsOneEach :
      (key : Option Bytes) (answers : Chat → Answers) (chats : Option (List Chat)) (page : Page)
      → AreOneEach chats
      → IsOneEach page.chats
      → IsOneEach (load_chats browser enc subtle curve json key answers chats page).chats
  unfolding load_chats
  load_chats-IsOneEach key answers none page l h = h
  load_chats-IsOneEach none answers (some chats) page l h = l
  load_chats-IsOneEach (some key) answers (some chats) page l h =
      subst Nodup (sym (companions-load browser enc subtle curve json key answers chats)) l

  on_known_chat-IsOneEach :
      (key : Bytes) (server : Server) (now id : String) (p : Payload) (page : Page)
      → IsOneEach page.chats
      → IsOneEach (on_known_chat clock browser enc subtle curve json key server now id p page).chats
  unfolding on_known_chat
  on_known_chat-IsOneEach key server now id p page h =
      bump-IsOneEach (selected_among page.selected_chat_id page.chats) id
        (record page {
          chats =
              show_message clock
                (λ text. with_unread page.selected_chat_id text (message_time now p)) id
                (read_message clock browser enc subtle curve json key server.public_key
                  p.encrypted_content)
                page.chats;
        })
        (show_message-IsOneEach clock
          (λ text. with_unread page.selected_chat_id text (message_time now p)) id
          (read_message clock browser enc subtle curve json key server.public_key
            p.encrypted_content)
          page.chats (λ text c. refl) h)

  started-IsOneEach :
      (key : Bytes) (server : Server) (now id : String) (p : Payload) (page : Page)
      (r : Result (Bytes × String))
      → AreOneEach server.chats
      → IsOneEach page.chats
      → IsOneEach (started clock browser enc subtle curve json key server now id p page r).chats
  unfolding started reloaded
  started-IsOneEach key server now id p page (err _) l h = h
  started-IsOneEach key server now id p page (ok (k, c)) l h = elim (Bool-cases server.saved) [
    | inl e ↦ rw e (
        show_message-IsOneEach clock (λ text. with_message text (message_time now p)) id
          (read_preview browser enc subtle curve json p.encrypted_content k)
          (load_chats browser enc subtle curve json (some key) server.answers server.chats
            page).chats
          (λ text c. refl) (load_chats-IsOneEach (some key) server.answers server.chats page l h))
    | inr e ↦ rw e h
  ]

  by_chat-IsOneEach :
      (nonce key : Bytes) (server : Server) (now id : String) (p : Payload) (page : Page)
      (c : Option Chat)
      → AreOneEach server.chats
      → IsOneEach page.chats
      → IsOneEach
          (by_chat clock browser enc subtle curve json nonce key server now id p page c).chats
  unfolding by_chat on_new_chat
  by_chat-IsOneEach nonce key server now id p page none l h =
      started-IsOneEach key server now id p page
        (new_key clock browser enc subtle curve json nonce key server.public_key) l h
  by_chat-IsOneEach nonce key server now id p page (some c) l h =
      on_known_chat-IsOneEach key server now id p page h

  unless_processed-IsOneEach :
      (nonce key : Bytes) (server : Server) (now id : String) (p : Payload) (page : Page)
      (keys : Option (List String))
      → AreOneEach server.chats
      → IsOneEach page.chats
      → IsOneEach
          (unless_processed clock browser enc subtle curve json nonce key server now id p page
            keys).chats
  unfolding unless_processed
  unless_processed-IsOneEach nonce key server now id p page none l h = h
  unless_processed-IsOneEach nonce key server now id p page (some keys) l h =
      by_chat-IsOneEach nonce key server now id p (record page { processed_messages = keys })
        (find_chat id page.chats) l h

  pub on_new_message-IsOneEach :
      (nonce key : Bytes) (server : Server) (now : String) (p : Payload) (page : Page)
      → AreOneEach server.chats
      → IsOneEach page.chats
      → IsOneEach
          (on_new_message clock browser enc subtle curve json nonce key server now p page).chats
  unfolding on_new_message
  on_new_message-IsOneEach nonce key server now p page l h = elim (Option-cases p.chat_id) [
    | inl e ↦ rw e h
    | inr (id, e) ↦ rw e (elim (Bool-cases (non_empty id)) [
      | inl n ↦ rw n (
          unless_processed-IsOneEach nonce key server now id p page
            (processed_with (message_key p.id id) page.processed_messages) l h)
      | inr n ↦ rw n h
    ])
  ]

  sent_in-IsOneEach :
      (key : Bytes) (server : Server) (now id : String) (p : Payload) (page : Page)
      (c : Option Chat)
      → IsOneEach page.chats
      → IsOneEach (sent_in clock browser enc subtle curve json key server now id p page c).chats
  unfolding sent_in
  sent_in-IsOneEach key server now id p page none h = h
  sent_in-IsOneEach key server now id p page (some c) h =
      show_message-IsOneEach clock (λ text. with_message text (message_time now p)) id
        (read_message clock browser enc subtle curve json key server.public_key p.encrypted_content)
        page.chats (λ text c. refl) h

  sent_to-IsOneEach :
      (key : Bytes) (server : Server) (now : String) (p : Payload) (page : Page) (o : Option String)
      → IsOneEach page.chats
      → IsOneEach (sent_to clock browser enc subtle curve json key server now p page o).chats
  unfolding sent_to
  sent_to-IsOneEach key server now p page none h = h
  sent_to-IsOneEach key server now p page (some id) h = elim (Bool-cases (non_empty id)) [
    | inl n ↦ rw n (sent_in-IsOneEach key server now id p page (find_chat id page.chats) h)
    | inr n ↦ rw n h
  ]

  pub on_message_sent-IsOneEach :
      (key : Bytes) (server : Server) (now : String) (p : Payload) (page : Page)
      → IsOneEach page.chats
      → IsOneEach (on_message_sent clock browser enc subtle curve json key server now p page).chats
  unfolding on_message_sent
  on_message_sent-IsOneEach key server now p page h =
      sent_to-IsOneEach key server now p page p.chat_id h

  created-IsOneEach :
      (user : User) (now : String) (saved : Bool) (page : Page) (r : Result (Bytes × String))
      → find_companion user.id page.chats ≡ none
      → IsOneEach page.chats
      → IsOneEach (created clock browser enc subtle curve json user now saved page r).chats
  created-IsOneEach user now saved page (err _) e h = h
  created-IsOneEach user now false page (ok (k, c)) e h = h
  created-IsOneEach user now true page (ok (k, c)) e h =
      Nodup-cons.1 (not_mem-companions user.id page.chats e, h)

  create_chat-IsOneEach :
      (nonce : Bytes) (user : User) (now : String) (saved : Bool) (page : Page) (key : Option Bytes)
      → find_companion user.id page.chats ≡ none
      → IsOneEach page.chats
      → IsOneEach
          (create_chat clock browser enc subtle curve json nonce user now saved page key).chats
  unfolding create_chat
  create_chat-IsOneEach nonce user now saved page none e h = h
  create_chat-IsOneEach nonce user now saved page (some k) e h =
      created-IsOneEach user now saved page
        (new_key clock browser enc subtle curve json nonce k (some user.public_key)) e h

  pub handle_new_chat-IsOneEach :
      (nonce : Bytes) (key : Option Bytes) (saved : Bool) (now : String) (user : User) (page : Page)
      → IsOneEach page.chats
      → IsOneEach
          (handle_new_chat clock browser enc subtle curve json nonce key saved now user page).chats
  unfolding handle_new_chat open_chat
  handle_new_chat-IsOneEach nonce key saved now user page h =
      elim (Option-cases (find_companion user.id page.chats)) [
        | inl e ↦ rw e (create_chat-IsOneEach nonce user now saved page key e h)
        | inr (c, e) ↦ rw e h
      ]

pub handle_select_chat-IsOneEach :
    (c : Chat) (page : Page) → IsOneEach page.chats → IsOneEach (handle_select_chat c page).chats
unfolding handle_select_chat
handle_select_chat-IsOneEach c page h = subst Nodup (sym (companions-reset c.id page.chats)) h

pub set_online_statuses-IsOneEach :
    (ss : List OnlineStatus) (page : Page)
    → IsOneEach page.chats
    → IsOneEach (set_online_statuses ss page).chats
unfolding set_online_statuses
set_online_statuses-IsOneEach ss page h = subst Nodup (sym (companions-statuses ss page.chats)) h
