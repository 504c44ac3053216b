-- ===== src/ChatsPage/Small.antt =====
-- The number of the processed messages of ChatsPage.tsx in the pages that its handlers reach.
use zero_mes.Common.{
  ℕ, zero, suc, ◌-◌, ◌≤◌, ◌≡◌, sym, subst, Bool, true, false, Option, none, some, List, [], ◌∷◌,
  ◌++◌, arith, Bool-cases, Option-cases, inl, inr, String, length, drop, ltb, non_empty,
}
use zero_mes.Crypto.Primitives.{Bytes, Encoding, Subtle, Curve, JsonText}
use zero_mes.Crypto.Encryption as Encryption
use zero_mes.Crypto.Encryption.{Result, ok, err}
use zero_mes.Dates.{Clock}
use zero_mes.ChatsPage.{
  Chat, Page, find_chat, find_companion, has, newest, processed_with, message_key,
}
use zero_mes.ChatsPage.Navigation.{
  handle_select_chat, handle_back_to_chats, set_online_statuses, begin_connection, on_status,
}
use zero_mes.ChatsPage.Handlers.{
  Payload, Server, User, unless_processed, on_new_message, sent_in, sent_to, on_message_sent,
  new_key, created, create_chat, open_chat, handle_new_chat,
}
use zero_mes.ChatsPage.Processed.{load-processed, by_chat-processed, by_key}
use zero_mes.ChatsPage.Reachable.{Step, Reach}

abbrev pub IsSmall : Page → Type 0
IsSmall page = length page.processed_messages ≤ 100

length-drop_le : (n : ℕ) (l : List String) → length (drop n l) ≡ length l - n
length-drop_le zero l = omega arith
length-drop_le (suc n) [] = omega arith
length-drop_le (suc n) (x ∷ l) = let rest = length-drop_le n l in omega arith

length-newest : (keys : List String) → length (newest keys) ≤ 100
unfolding newest
length-newest keys = elim (Bool-cases (ltb 100 (length keys))) [
  | inl e ↦ rw e (let n = length-drop_le (length keys - 100) keys in omega arith)
  | inr e ↦ rw e (ground arith)
]

module _ (clock : Clock) (browser : Encryption.Window) (enc : Encoding) (subtle : Subtle)
    (curve : Curve) (json : JsonText) where
  length-handled :
      (nonce private_key : Bytes) (server : Server) (now id : String) (p : Payload) (page : Page)
      (key : String)
      → length page.processed_messages ≤ 100
      → length
          (unless_processed clock browser enc subtle curve json nonce private_key server now id p
            page
            (processed_with key page.processed_messages)).processed_messages
        ≤ 100
  unfolding processed_with unless_processed
  length-handled nonce private_key server now id p page key small =
      elim (Bool-cases (has key page.processed_messages)) [
        | inl h ↦ rw h small
        | inr h ↦
            rw
              (
                h,
                by_chat-processed clock browser enc subtle curve json nonce private_key server now
                    id p
                    (record page {
                      processed_messages = newest (page.processed_messages ++ key ∷ []);
                    })
                    (find_chat id page.chats),
              )
              (length-newest (page.processed_messages ++ key ∷ []))
      ]

  on_new_message-IsSmall :
      (nonce key : Bytes) (server : Server) (now : String) (p : Payload) (page : Page)
      → IsSmall page
      → IsSmall (on_new_message clock browser enc subtle curve json nonce key server now p page)
  unfolding on_new_message
  on_new_message-IsSmall nonce key server now p page h = elim (Option-cases p.chat_id) [
    | inl e ↦ rw e h
    | inr (id, e) ↦ elim (Bool-cases (non_empty id)) [
      | inl n ↦
          rw (by_key clock browser enc subtle curve json nonce key server now id p page e n)
            (length-handled nonce key server now id p page (message_key p.id id) h)
      | inr n ↦ rw (e, n) h
    ]
  ]

  sent_in-IsSmall :
      (key : Bytes) (server : Server) (now id : String) (p : Payload) (page : Page)
      (c : Option Chat)
      → IsSmall page
      → IsSmall (sent_in clock browser enc subtle curve json key server now id p page c)
  unfolding sent_in
  sent_in-IsSmall key server now id p page none h = h
  sent_in-IsSmall key server now id p page (some c) h = h

  sent_to-IsSmall :
      (key : Bytes) (server : Server) (now : String) (p : Payload) (page : Page) (o : Option String)
      → IsSmall page
      → IsSmall (sent_to clock browser enc subtle curve json key server now p page o)
  unfolding sent_to
  sent_to-IsSmall key server now p page none h = h
  sent_to-IsSmall key server now p page (some id) h = elim (Bool-cases (non_empty id)) [
    | inl n ↦ rw n (sent_in-IsSmall key server now id p page (find_chat id page.chats) h)
    | inr n ↦ rw n h
  ]

  created-IsSmall :
      (user : User) (now : String) (saved : Bool) (page : Page) (r : Result (Bytes × String))
      → IsSmall page
      → IsSmall (created clock browser enc subtle curve json user now saved page r)
  created-IsSmall user now saved page (err _) h = h
  created-IsSmall user now false page (ok (k, c)) h = h
  created-IsSmall user now true page (ok (k, c)) h = h

  open_chat-IsSmall :
      (nonce : Bytes) (user : User) (now : String) (saved : Bool) (page : Page) (key : Option Bytes)
      (c : Option Chat)
      → IsSmall page
      → IsSmall (open_chat clock browser enc subtle curve json nonce user now saved page key c)
  unfolding open_chat create_chat
  open_chat-IsSmall nonce user now saved page key (some c) h = h
  open_chat-IsSmall nonce user now saved page none none h = h
  open_chat-IsSmall nonce user now saved page (some k) none h =
      created-IsSmall user now saved page
        (new_key clock browser enc subtle curve json nonce k (some user.public_key)) h

  Step-IsSmall :
      {IsAnswer : Option (List Chat) → Type 0} {page next : Page}
      → Step clock browser enc subtle curve json IsAnswer page next
      → IsSmall page
      → IsSmall next
  unfolding handle_back_to_chats begin_connection on_status on_message_sent handle_new_chat
      handle_select_chat set_online_statuses
  Step-IsSmall {page} (Step.load key answers chats l) h =
      subst (λ keys. length keys ≤ 100)
        (sym (load-processed clock browser enc subtle curve json key answers chats page)) h
  Step-IsSmall {page} (Step.receive nonce key server now p l) h =
      on_new_message-IsSmall nonce key server now p page h
  Step-IsSmall {page} (Step.confirm key server now p) h =
      sent_to-IsSmall key server now p page p.chat_id h
  Step-IsSmall {page} (Step.begin_chat nonce key saved now user) h =
      open_chat-IsSmall nonce user now saved page key (find_companion user.id page.chats) h
  Step-IsSmall (Step.select c) h = h
  Step-IsSmall Step.return_to_chats h = h
  Step-IsSmall (Step.check ss) h = h
  Step-IsSmall (Step.connect none) h = h
  Step-IsSmall (Step.connect (some key)) h = h
  Step-IsSmall (Step.change status) h = h

  -- The set of processed messages holds at most 100 keys in every page that is reached, by handlers in any order
  -- of which each ends before the next begins, and whatever the server answers and sends: no answer of getChats is excluded.
  pub Reach-IsSmall :
      (IsAnswer : Option (List Chat) → Type 0) {page : Page}
      → Reach clock browser enc subtle curve json IsAnswer page
      → IsSmall page
  Reach-IsSmall IsAnswer (Reach.start page e f) =
      subst (λ keys. length keys ≤ 100) (sym f) (omega arith)
  Reach-IsSmall IsAnswer (Reach.later r s) = Step-IsSmall s (Reach-IsSmall IsAnswer r)
