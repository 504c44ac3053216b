-- ===== src/ChatsPage/Processed.antt =====
-- The set of processed messages of ChatsPage.tsx.
use zero_mes.Common.{
  ℕ, zero, suc, ◌-◌, ◌≤◌, ◌≡◌, refl, sym, subst, ◌∙◌, true, Option, none, some, List, [], ◌∷◌, ◌++◌,
  ◌||◌, arith, Bool-cases, inl, inr, String, length, drop, ltb, eq_refl, length-append, non_empty,
}
use zero_mes.Crypto.Primitives.{Bytes, Encoding, Subtle, Curve, JsonText}
use zero_mes.Crypto.Encryption as Encryption
use zero_mes.Crypto.Encryption.{Result, ok, err}
use zero_mes.ChatsPage.Keys.{Answers, load_chats}
use zero_mes.Dates.{Clock}
use zero_mes.ChatsPage.{
  Chat, Page, selected_among, has, newest, processed_with, message_key, find_chat,
}
use zero_mes.ChatsPage.Handlers.{
  Payload, Server, bump, new_key, started, reloaded, on_new_message, unless_processed, by_chat,
  on_new_chat, on_known_chat,
}

has-append : (key : String) (a b : List String) → has key (a ++ b) ≡ (has key a || has key b)
unfolding has
has-append key [] b = refl
has-append key (x ∷ a) b = ground (arith, has-append key a b)

-- The latest key is kept.
has-drop :
    (key : String) (n : ℕ) (keys : List String)
    → n ≤ length keys
    → has key (drop n (keys ++ key ∷ [])) ≡ true
unfolding has
has-drop key zero keys h = ground (arith, has-append key keys (key ∷ []), eq_refl key)
has-drop key (suc n) [] h = let no : ⊥ = omega arith in absurd no
has-drop key (suc n) (x ∷ keys) h = has-drop key n keys (omega arith)

has-last : (key : String) (keys : List String) → has key (keys ++ key ∷ []) ≡ true
unfolding has
has-last key keys = ground (arith, has-append key keys (key ∷ []), eq_refl key)

has-newest : (key : String) (keys : List String) → has key (newest (keys ++ key ∷ [])) ≡ true
unfolding newest
has-newest key keys =
    let one = length-append keys (key ∷ []) in
    let low : length (keys ++ key ∷ []) - 100 ≤ length keys = omega arith in
    elim (Bool-cases (ltb 100 (length (keys ++ key ∷ [])))) [
      | inl e ↦ rw e (has-drop key (length (keys ++ key ∷ []) - 100) keys low)
      | inr e ↦ rw e (has-last key keys)
    ]

bump-processed :
    (o : Option Chat) (id : String) (page : Page)
    → (bump o id page).processed_messages ≡ page.processed_messages
bump-processed none id page = refl
bump-processed (some c) id page = ground arith

module _ (clock : Clock) (browser : Encryption.Window) (enc : Encoding) (subtle : Subtle)
    (curve : Curve) (json : JsonText) where
  pub load-processed :
      (key : Option Bytes) (answers : Chat → Answers) (chats : Option (List Chat)) (page : Page)
      → (load_chats browser enc subtle curve json key answers chats page).processed_messages
        ≡ page.processed_messages
  unfolding load_chats
  load-processed key answers none page = refl
  load-processed none answers (some chats) page = refl
  load-processed (some k) answers (some chats) page = refl

  started-processed :
      (private_key : Bytes) (server : Server) (now id : String) (p : Payload) (page : Page)
      (r : Result (Bytes × String))
      → (started clock browser enc subtle curve json private_key server now id p page
          r).processed_messages
        ≡ page.processed_messages
  unfolding started reloaded
  started-processed private_key server now id p page (err _) = refl
  started-processed private_key server now id p page (ok (k, _)) = elim (Bool-cases server.saved) [
    | inl e ↦ rw e (load-processed (some private_key) server.answers server.chats page)
    | inr e ↦ rw e
  ]

  pub by_chat-processed :
      (nonce private_key : Bytes) (server : Server) (now id : String) (p : Payload) (page : Page)
      (o : Option Chat)
      → (by_chat clock browser enc subtle curve json nonce private_key server now id p page
          o).processed_messages
        ≡ page.processed_messages
  unfolding by_chat on_new_chat on_known_chat
  by_chat-processed nonce private_key server now id p page none =
      started-processed private_key server now id p page
        (new_key clock browser enc subtle curve json nonce private_key server.public_key)
  by_chat-processed nonce private_key server now id p page (some c) =
      bump-processed (selected_among page.selected_chat_id page.chats) id _

  -- A message with a chat, by its key.
  pub by_key :
      (nonce private_key : Bytes) (server : Server) (now id : String) (p : Payload) (page : Page)
      → p.chat_id ≡ some id
      → non_empty id ≡ true
      → on_new_message clock browser enc subtle curve json nonce private_key server now p page
        ≡ unless_processed clock browser enc subtle curve json nonce private_key server now id p
            page
            (processed_with (message_key p.id id) page.processed_messages)
  unfolding on_new_message
  by_key nonce private_key server now id p page c n = rw (c, n)

  skipped :
      (nonce private_key : Bytes) (server : Server) (now id : String) (p : Payload) (page : Page)
      (key : String)
      → has key page.processed_messages ≡ true
      → unless_processed clock browser enc subtle curve json nonce private_key server now id p page
          (processed_with key page.processed_messages)
        ≡ page
  unfolding processed_with unless_processed
  skipped nonce private_key server now id p page key h = rw h

  has-handled :
      (nonce private_key : Bytes) (server : Server) (now id : String) (p : Payload) (page : Page)
      (key : String)
      → has key
          (unless_processed clock browser enc subtle curve json nonce private_key server now id p
            page
            (processed_with key page.processed_messages)).processed_messages
        ≡ true
  unfolding processed_with unless_processed
  has-handled nonce private_key server now id p page key =
      elim (Bool-cases (has key page.processed_messages)) [
        | inl h ↦ rw h h
        | inr h ↦
            rw
              (
                h,
                by_chat-processed nonce private_key server now id p
                    (record page {
                      processed_messages = newest (page.processed_messages ++ key ∷ []);
                    })
                    (find_chat id page.chats),
              )
              (has-newest key page.processed_messages)
      ]

  -- A message is handled once: what comes with the id and the chat of the message that was handled last
  -- changes nothing, whatever else it holds and the server answers.
  pub on_new_message-again :
      (nonce nonce2 private_key : Bytes) (server server2 : Server) (now now2 id : String)
      (p q : Payload) (page : Page)
      → p.chat_id ≡ some id
      → non_empty id ≡ true
      → q.chat_id ≡ some id
      → q.id ≡ p.id
      → on_new_message clock browser enc subtle curve json nonce2 private_key server2 now2 q
          (on_new_message clock browser enc subtle curve json nonce private_key server now p page)
        ≡ on_new_message clock browser enc subtle curve json nonce private_key server now p page
  on_new_message-again nonce nonce2 private_key server server2 now now2 id p q page c n d same =
      let after =
        on_new_message clock browser enc subtle curve json nonce private_key server now p page in
      let seen : has (message_key q.id id) after.processed_messages ≡ true =
        subst (λ i. has (message_key i id) after.processed_messages ≡ true) (sym same)
          (subst (λ x. has (message_key p.id id) x.processed_messages ≡ true)
            (sym (by_key nonce private_key server now id p page c n))
            (has-handled nonce private_key server now id p page (message_key p.id id))) in
      by_key nonce2 private_key server2 now2 id q after d n
      ∙ skipped nonce2 private_key server2 now2 id q after (message_key q.id id) seen
