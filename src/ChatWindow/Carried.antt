-- ===== src/ChatWindow/Carried.antt =====
-- The frames that carry the events of a conversation, and what one of them does to the window.
use zero_mes.Common.{
  ◌≡◌, refl, ap, ◌∙◌, String, Bool, true, false, Option, none, some, arith, eq_refl, if◌then◌else◌,
  non_empty, length,
}
use zero_mes.Crypto.Primitives.{Bytes, AreBytes, Encoding, Subtle, JsonText, strip_bom}
use zero_mes.Crypto.Encryption as Encryption
use zero_mes.Crypto.Encryption.{
  Result, ok, err, EncryptedMessage, ◌>>=◌, to_json, is_crypto_available, encrypt_message,
  decrypt_message_content,
}
use zero_mes.Crypto.Encryption.RoundTrip.{decrypt_message_content-encrypt_message}
use zero_mes.ChatWindow.{Chat, Window, or_text, mark_read, find_index}
use zero_mes.ChatWindow.Frames.{
  NewMessage, Frame, message_sent, new_message, message_deleted, message_altered, message_read,
  is_same, insert, remove, alter, mark, apply_change, make_change, given, attempt, with_text,
  received, change_of, on_new_message, on_altered,
}
use zero_mes.ChatWindow.Actions.{seal, sealed}
use zero_mes.ChatWindow.Awaiting.{awaits}
use zero_mes.ChatWindow.View.{
  Event, is_late, said, rewrote, withdrew, quiet, follow, view, view-insert, view-remove,
  view-alter, view-mark_found,
}

or_text-empty : (s : String) → or_text (some s) "" ≡ s
or_text-empty String.[] = refl
or_text-empty (String.◌∷◌ c s) = refl

-- A sealed text is read by whatever reads the text of the encrypted message.
read-sealed :
    (json : JsonText) (read : String → Result String) (r : Result EncryptedMessage)
    (content t : String)
    → (r >>= λ e. read (json.stringify (to_json e))) ≡ ok t
    → sealed json r ≡ ok content
    → read content ≡ ok t
read-sealed json read (err e) content t a b = ground arith
read-sealed json read (ok e) content t a b = cc

-- A frame carries an event, in a chat with this key: its text is encrypted by encryptMessage and written by
-- JSON.stringify. Receipts, new messages of other chats and the answer to our own message carry nothing.
module _ (browser : Encryption.Window) (enc : Encoding) (subtle : Subtle) (json : JsonText) where
  pub data Carries (chat : Chat) (key : Bytes) : Frame → Event → Type 0 where
    carries_said :
        (p : NewMessage) (id t content : String) (nonce : Bytes)
        → p.message_id ≡ some id
        → non_empty id ≡ true
        → p.chat_id ≡ some chat.id
        → p.encrypted_content ≡ some content
        → AreBytes nonce
        → seal browser enc subtle json nonce t key ≡ ok content
        → Carries chat key (new_message (some p)) (said id t)
    carries_rewrote :
        (id t content : String) (nonce : Bytes)
        → non_empty id ≡ true
        → AreBytes nonce
        → seal browser enc subtle json nonce t key ≡ ok content
        → Carries chat key (message_altered (some id) (some content)) (rewrote id t)
    carries_withdrew :
        (id : String)
        → non_empty id ≡ true
        → Carries chat key (message_deleted (some id)) (withdrew id)
    carries_receipt :
        (chat_id last : Option String) → Carries chat key (message_read chat_id last) quiet
    carries_foreign :
        (p : NewMessage)
        → is_same p.chat_id chat.id ≡ false
        → Carries chat key (new_message (some p)) quiet
    carries_answer : Carries chat key message_sent quiet

  module _ (available : is_crypto_available browser ≡ true) (key : Bytes)
      (size : length key ≡ 32) where
    -- A text that seal encrypted is decrypted by decryptMessageContent.
    read-seal :
        (nonce : Bytes) (t content : String)
        → AreBytes nonce
        → seal browser enc subtle json nonce t key ≡ ok content
        → decrypt_message_content browser enc subtle json content key ≡ ok (strip_bom t)
    unfolding seal
    read-seal nonce t content bytes e =
        read-sealed json (λ c. decrypt_message_content browser enc subtle json c key)
          (encrypt_message browser enc subtle nonce t key) content (strip_bom t)
          (decrypt_message_content-encrypt_message browser enc subtle json nonce t key available
            bytes size)
          e

    given-some : (s : String) → non_empty s ≡ true → given (some s) ≡ some s
    given-some s n = rw n

    sealed-non_empty :
        (r : Result EncryptedMessage) (content : String)
        → sealed json r ≡ ok content
        → non_empty content ≡ true
    sealed-non_empty (err e) content s = ground arith
    sealed-non_empty (ok e) content s =
        let full = json.stringify-non_empty e.ciphertext e.nonce in
        let same : json.stringify (to_json e) ≡ content = cc in rw (← same) full

    withdraw-follow :
        (w : Window) (id : String)
        → view (apply_change (remove id) w).messages ≡ follow (withdrew id) (view w.messages)
    unfolding apply_change
    withdraw-follow w id = view-remove id w.messages

    foreign-none :
        (now : String) (w : Window) (p : NewMessage)
        → is_same p.chat_id w.chat.id ≡ false
        → on_new_message browser enc subtle json w.chat key now p ≡ none
    unfolding on_new_message
    foreign-none now w p n = rw n

    insert-made :
        (now : String) (w : Window) (p : NewMessage) (content plain : String)
        → p.chat_id ≡ some w.chat.id
        → p.encrypted_content ≡ some content
        → decrypt_message_content browser enc subtle json content key ≡ ok plain
        → on_new_message browser enc subtle json w.chat key now p
          ≡ some (insert (received w.chat now plain p))
    unfolding on_new_message
    insert-made now w p content plain c x d =
        let here : is_same p.chat_id w.chat.id ≡ true = rw (c, eq_refl w.chat.id) in
        let text : or_text p.encrypted_content "" ≡ content =
          ap (λ o. or_text o "") x ∙ or_text-empty content in
        rw (here, text, d)

    insert-follow :
        (now : String) (w : Window) (p : NewMessage) (id t content : String)
        → p.message_id ≡ some id
        → non_empty id ≡ true
        → p.chat_id ≡ some w.chat.id
        → p.encrypted_content ≡ some content
        → decrypt_message_content browser enc subtle json content key ≡ ok (strip_bom t)
        → view (make_change (on_new_message browser enc subtle json w.chat key now p) w).messages
          ≡ follow (said id t) (view w.messages)
    unfolding apply_change received
    insert-follow now w p id t content i n c x d =
        let m = received w.chat now (strip_bom t) p in
        let named : m.id ≡ id = ap (λ o. or_text o (or_text p.id "")) i ∙ rw n in
        ap (λ o. view (make_change o w).messages) (insert-made now w p content (strip_bom t) c x d)
        ∙ view-insert m t w.messages refl
        ∙ ap (λ k. follow (said k t) (view w.messages)) named

    alter-follow :
        (w : Window) (id t content : String)
        → decrypt_message_content browser enc subtle json content key ≡ ok (strip_bom t)
        → view
            (make_change
              (on_altered browser enc subtle json key (some id) (some content))
              w).messages
          ≡ follow (rewrote id t) (view w.messages)
    unfolding on_altered apply_change
    alter-follow w id t content d =
        ap (λ r. view (make_change (attempt (alter id content) r) w).messages) d
        ∙ view-alter id content t w.messages

    mark-follow :
        (w : Window) (last : Option String)
        → view (make_change (with_text mark last) w).messages ≡ view w.messages
    unfolding apply_change mark_read
    mark-follow w none = refl
    mark-follow w (some i) =
        view-mark_found w.chat.companion_id w.messages (find_index i w.messages)

    receipt-follow :
        (w : Window) (same : Bool) (last : Option String)
        → view (make_change (if same then with_text mark last else none) w).messages
          ≡ view w.messages
    receipt-follow w true last = mark-follow w last
    receipt-follow w false last = refl

    -- A frame is awaited where what it carries has a text.
    pub awaits-is_late :
        (chat : Chat) (f : Frame) (e : Event) → Carries chat key f e → awaits chat f ≡ is_late e
    unfolding awaits seal
    awaits-is_late chat f e (carries_said p id t content nonce i n c x bytes s) =
        rw (c, eq_refl chat.id)
    awaits-is_late chat f e (carries_rewrote id t content nonce n bytes s) =
        let full = sealed-non_empty (encrypt_message browser enc subtle nonce t key) content s in
        rw (n, full)
    awaits-is_late chat f e (carries_withdrew id n) = refl
    awaits-is_late chat f e (carries_receipt chat_id last) = refl
    awaits-is_late chat f e (carries_foreign p n) = n
    awaits-is_late chat f e carries_answer = refl

    pub change-follow :
        (now : String) (w : Window) (f : Frame) (e : Event)
        → Carries w.chat key f e
        → view (make_change (change_of browser enc subtle json w.chat key now f) w).messages
          ≡ follow e (view w.messages)
    unfolding change_of seal
    change-follow now w f e (carries_said p id t content nonce i n c x bytes s) =
        insert-follow now w p id t content i n c x (read-seal nonce t content bytes s)
    change-follow now w f e (carries_rewrote id t content nonce n bytes s) =
        let full = sealed-non_empty (encrypt_message browser enc subtle nonce t key) content s in
        let d = read-seal nonce t content bytes s in
        ap
          (λ o.
            view
              (make_change (on_altered browser enc subtle json key o (given (some content)))
                w).messages)
          (given-some id n)
        ∙ ap
            (λ o.
              view (make_change (on_altered browser enc subtle json key (some id) o) w).messages)
            (given-some content full)
        ∙ alter-follow w id t content d
    change-follow now w f e (carries_withdrew id n) =
        ap (λ o. view (make_change (with_text remove o) w).messages) (given-some id n)
        ∙ withdraw-follow w id
    change-follow now w f e (carries_receipt chat_id last) =
        receipt-follow w (is_same chat_id w.chat.id) (given last)
    change-follow now w f e (carries_foreign p n) =
        ap (λ o. view (make_change o w).messages) (foreign-none now w p n)
    change-follow now w f e carries_answer = refl
