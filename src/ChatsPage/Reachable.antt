-- ===== src/ChatsPage/Reachable.antt =====
-- The pages that ChatsPage.tsx reaches by its handlers, in any order.
use mathlib.Core.List.Pairwise
use zero_mes.Common.{◌≡◌, sym, subst, Bool, Option, none, some, List, [], String}
use zero_mes.Crypto.Primitives.{Bytes, Encoding, Subtle, Curve, JsonText}
use zero_mes.Crypto.Encryption as Encryption
use zero_mes.Dates.{Clock}
use zero_mes.ChatsPage.{Chat, Page}
use zero_mes.ChatsPage.Chats.{OnlineStatus}
use zero_mes.ChatsPage.Keys.{Answers, load_chats}
use zero_mes.ChatsPage.Navigation.{
  handle_select_chat, handle_back_to_chats, set_online_statuses, begin_connection, on_status,
}
use zero_mes.ChatsPage.Handlers.{
  Payload, Server, User, on_new_message, on_message_sent, handle_new_chat,
}
use zero_mes.ChatsPage.Each.{
  IsOneEach, AreOneEach, load_chats-IsOneEach, on_new_message-IsOneEach, on_message_sent-IsOneEach,
  handle_new_chat-IsOneEach, handle_select_chat-IsOneEach, set_online_statuses-IsOneEach,
}

module _ (clock : Clock) (browser : Encryption.Window) (enc : Encoding) (subtle : Subtle)
    (curve : Curve) (json : JsonText) (IsAnswer : Option (List Chat) → Type 0) where
  -- One handler runs, with an answer of getChats such as the server gives, and with any other answers.
  pub data Step (page : Page) : Page → Type 0 where
    load :
        (key : Option Bytes) (answers : Chat → Answers) (chats : Option (List Chat))
        → IsAnswer chats
        → Step page (load_chats browser enc subtle curve json key answers chats page)
    receive :
        (nonce key : Bytes) (server : Server) (now : String) (p : Payload)
        → IsAnswer server.chats
        → Step page (on_new_message clock browser enc subtle curve json nonce key server now p page)
    confirm :
        (key : Bytes) (server : Server) (now : String) (p : Payload)
        → Step page (on_message_sent clock browser enc subtle curve json key server now p page)
    begin_chat :
        (nonce : Bytes) (key : Option Bytes) (saved : Bool) (now : String) (user : User)
        → Step page
            (handle_new_chat clock browser enc subtle curve json nonce key saved now user page)
    select : (c : Chat) → Step page (handle_select_chat c page)
    return_to_chats : Step page (handle_back_to_chats page)
    check : (ss : List OnlineStatus) → Step page (set_online_statuses ss page)
    connect : (key : Option Bytes) → Step page (begin_connection key page)
    change : (status : String) → Step page (on_status status page)

  -- From a page with no chats and no processed messages, as it is at the begin.
  pub data Reach : Page → Type 0 where
    start : (page : Page) → page.chats ≡ [] → page.processed_messages ≡ [] → Reach page
    later : {page next : Page} → Reach page → Step page next → Reach next

module _ (clock : Clock) (browser : Encryption.Window) (enc : Encoding) (subtle : Subtle)
    (curve : Curve) (json : JsonText) where
  Step-IsOneEach :
      {page next : Page}
      → Step clock browser enc subtle curve json AreOneEach page next
      → IsOneEach page.chats
      → IsOneEach next.chats
  unfolding handle_back_to_chats begin_connection on_status
  Step-IsOneEach {page} (Step.load key answers chats l) h =
      load_chats-IsOneEach clock browser enc subtle curve json key answers chats page l h
  Step-IsOneEach {page} (Step.receive nonce key server now p l) h =
      on_new_message-IsOneEach clock browser enc subtle curve json nonce key server now p page l h
  Step-IsOneEach {page} (Step.confirm key server now p) h =
      on_message_sent-IsOneEach clock browser enc subtle curve json key server now p page h
  Step-IsOneEach {page} (Step.begin_chat nonce key saved now user) h =
      handle_new_chat-IsOneEach clock browser enc subtle curve json nonce key saved now user page h
  Step-IsOneEach {page} (Step.select c) h = handle_select_chat-IsOneEach c page h
  Step-IsOneEach Step.return_to_chats h = h
  Step-IsOneEach {page} (Step.check ss) h = set_online_statuses-IsOneEach ss page h
  Step-IsOneEach (Step.connect none) h = h
  Step-IsOneEach (Step.connect (some key)) h = h
  Step-IsOneEach (Step.change status) h = h

  -- In every page that is reached from an empty page, by handlers in any order of which each ends before the next
  -- begins, and with any other answers of the server, no two chats have the same companion; a list that the server
  -- answers with is taken to have each companion once.
  pub Reach-IsOneEach :
      {page : Page}
      → Reach clock browser enc subtle curve json AreOneEach page
      → IsOneEach page.chats
  Reach-IsOneEach (Reach.start page e f) = subst (λ cs. IsOneEach cs) (sym e) Pairwise.nil
  Reach-IsOneEach (Reach.later r s) = Step-IsOneEach s (Reach-IsOneEach r)
