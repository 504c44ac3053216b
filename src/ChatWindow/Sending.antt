-- ===== src/ChatWindow/Sending.antt =====
-- handleSendMessage of ChatWindow.tsx while other frames arrive: the temporary message comes and goes.
use zero_mes.Common.{
  ◌≡◌, refl, ap, ◌∙◌, String, true, false, none, some, List, [], ◌∷◌, ◌++◌, ◌||◌, str_eq, arith,
  eq_iff, eq_refl,
}
use mathlib.Core.List.{append-nil}
use zero_mes.Crypto.Primitives.{Bytes, Encoding, Subtle, JsonText}
use zero_mes.Crypto.Encryption as Encryption
use zero_mes.ChatWindow.{Message, Window, exists, remove_message, replace_message, sent}
use zero_mes.ChatWindow.Frames.{Change, insert, remove, alter, mark, apply_change, apply_changes}
use zero_mes.ChatWindow.Actions.{Sending, begin_send, end_send, temporary}
use zero_mes.ChatWindow.Unique.{
  exists-append, exists-remove, exists-alter, exists-insert, exists-mark_read,
}
use zero_mes.ChatWindow.Removal.{
  IsApart, AreApart, without, without-changes, remove-append, remove-absent,
}

remove-last :
    (id : String) (ms : List Message) (m : Message)
    → exists id ms ≡ false
    → m.id ≡ id
    → remove_message id (ms ++ m ∷ []) ≡ ms
unfolding remove_message
remove-last id ms m e f =
    ground
      (arith, remove-append id ms (m ∷ []), remove-absent id ms e, eq_iff m.id id, append-nil ms)

-- The changes do not look at the input.
apply_changes-text :
    (cs : List Change) (t : String) (w : Window)
    → apply_changes cs (record w { message_text = t })
      ≡ record (apply_changes cs w) { message_text = t }
unfolding apply_changes apply_change
apply_changes-text [] t w = refl
apply_changes-text (insert m ∷ cs) t w = apply_changes-text cs t (apply_change (insert m) w)
apply_changes-text (remove id ∷ cs) t w = apply_changes-text cs t (apply_change (remove id) w)
apply_changes-text (alter id content plain ∷ cs) t w =
    apply_changes-text cs t (apply_change (alter id content plain) w)
apply_changes-text (mark id ∷ cs) t w = apply_changes-text cs t (apply_change (mark id) w)

exists-apart :
    (id : String) (c : Change) (w : Window)
    → IsApart id c
    → exists id (apply_change c w).messages ≡ exists id w.messages
unfolding apply_change
exists-apart id (insert m) w a = exists-insert id m w.messages a
exists-apart id (remove i) w a = ground (arith, exists-remove i id w.messages)
exists-apart id (alter i content plain) w a = exists-alter i content plain id w.messages
exists-apart id (mark i) w a = exists-mark_read w.chat.companion_id i id w.messages

exists-changes :
    (id : String) (cs : List Change) (w : Window)
    → AreApart id cs
    → exists id (apply_changes cs w).messages ≡ exists id w.messages
unfolding apply_changes
exists-changes id [] w a = refl
exists-changes id (c ∷ cs) w a =
    exists-changes id cs (apply_change c w) a.1 ∙ exists-apart id c w a.0

remove-replace :
    (id : String) (m : Message) (ms : List Message)
    → str_eq m.id id ≡ false
    → remove_message m.id (replace_message id m ms) ≡ remove_message m.id (remove_message id ms)
unfolding remove_message
remove-replace id m [] e = refl
remove-replace id m (n ∷ ms) e = ground (arith, eq_refl m.id, remove-replace id m ms e)

exists-replace :
    (id : String) (m : Message) (ms : List Message)
    → str_eq m.id id ≡ false
    → (exists id (replace_message id m ms) ≡ false)
      × (exists m.id (replace_message id m ms) ≡ (exists id ms || exists m.id ms))
unfolding exists
exists-replace id m [] e = (refl, refl)
exists-replace id m (n ∷ ms) e = ground (arith, eq_refl m.id, exists-replace id m ms e)

module _ (browser : Encryption.Window) (enc : Encoding) (subtle : Subtle) (json : JsonText) where
  -- What a send that begins leaves in the window, and keeps for its end.
  begin_send-inv :
      (nonce : Bytes) (stamp now : String) (w w1 : Window) (s : Sending)
      → begin_send browser enc subtle json nonce stamp now w ≡ some (w1, s)
      → (w1 ≡ record w {
        messages = w.messages ++ temporary w.chat s.temp_id now w.message_text ∷ [];
        message_text = "";
      })
        × (s.content ≡ w.message_text)
  unfolding begin_send
  begin_send-inv nonce stamp now w w1 s e = ground arith

  begin_send-without :
      (nonce : Bytes) (stamp now : String) (w w1 : Window) (s : Sending)
      → begin_send browser enc subtle json nonce stamp now w ≡ some (w1, s)
      → exists s.temp_id w.messages ≡ false
      → without s.temp_id w1 ≡ record w { message_text = "" }
  unfolding without remove_message
  begin_send-without nonce stamp now w w1 s e absent =
      let inv = begin_send-inv nonce stamp now w w1 s e in
      rw (
        inv.0,
        remove-last s.temp_id w.messages (temporary w.chat s.temp_id now w.message_text) absent
            refl,
      )

  -- Without the temporary copy, the window is as if only the changes had come.
  changes-without :
      (nonce : Bytes) (stamp now : String) (w w1 : Window) (s : Sending) (cs : List Change)
      → begin_send browser enc subtle json nonce stamp now w ≡ some (w1, s)
      → exists s.temp_id w.messages ≡ false
      → AreApart s.temp_id cs
      → without s.temp_id (apply_changes cs w1) ≡ record (apply_changes cs w) { message_text = "" }
  changes-without nonce stamp now w w1 s cs e absent apart =
      without-changes s.temp_id cs w1 apart
      ∙ ap (apply_changes cs) (begin_send-without nonce stamp now w w1 s e absent)
      ∙ apply_changes-text cs "" w

  temporary-there :
      (nonce : Bytes) (stamp now : String) (w w1 : Window) (s : Sending) (cs : List Change)
      → begin_send browser enc subtle json nonce stamp now w ≡ some (w1, s)
      → AreApart s.temp_id cs
      → exists s.temp_id (apply_changes cs w1).messages ≡ true
  unfolding exists
  temporary-there nonce stamp now w w1 s cs e apart =
      let inv = begin_send-inv nonce stamp now w w1 s e in
      let new = temporary w.chat s.temp_id now w.message_text in
      ground (
        arith,
        exists-changes s.temp_id cs w1 apart,
        inv.0,
        exists-append s.temp_id w.messages (new ∷ []),
        eq_refl s.temp_id,
      )

  -- When a message cannot be sent, its temporary copy leaves no trace, whatever frames about other
  -- messages are handled in the meantime: the window is as if only they had come, and the text is
  -- in the input again. The id of the copy must not be there before.
  pub end_send-failed :
      (nonce : Bytes) (stamp now : String) (w w1 : Window) (s : Sending) (cs : List Change)
      → begin_send browser enc subtle json nonce stamp now w ≡ some (w1, s)
      → exists s.temp_id w.messages ≡ false
      → AreApart s.temp_id cs
      → end_send s none (apply_changes cs w1)
        ≡ record (apply_changes cs w) { message_text = w.message_text }
  unfolding end_send without
  end_send-failed nonce stamp now w w1 s cs e absent apart =
      ap {A = String} (λ t. record (without s.temp_id (apply_changes cs w1)) { message_text = t })
        (begin_send-inv nonce stamp now w w1 s e).1
      ∙ ap {A = Window} (λ v. record v { message_text = w.message_text })
          (changes-without nonce stamp now w w1 s cs e absent apart)

  -- When a message is sent, whatever frames about other messages are handled in the meantime, the server's
  -- copy takes the place of the temporary one: it is there, the temporary one is not, and without it the messages
  -- are as if only the frames had come. Its id is new.
  pub end_send-succeeded :
      (nonce : Bytes) (stamp now : String) (w w1 : Window) (s : Sending) (cs : List Change)
      (m : Message)
      → begin_send browser enc subtle json nonce stamp now w ≡ some (w1, s)
      → exists s.temp_id w.messages ≡ false
      → AreApart s.temp_id cs
      → str_eq m.id s.temp_id ≡ false
      → exists m.id (apply_changes cs w).messages ≡ false
      → (exists m.id (end_send s (some m) (apply_changes cs w1)).messages ≡ true)
        × (exists s.temp_id (end_send s (some m) (apply_changes cs w1)).messages ≡ false)
        × (remove_message m.id (end_send s (some m) (apply_changes cs w1)).messages
            ≡ (apply_changes cs w).messages)
  unfolding end_send without
  end_send-succeeded nonce stamp now w w1 s cs m e absent apart differ new =
      let rest =
        remove-replace s.temp_id
          (record m { decrypted_content = some s.content; local_status = some sent })
          (apply_changes cs w1).messages differ in
      let shown =
        exists-replace s.temp_id
          (record m { decrypted_content = some s.content; local_status = some sent })
          (apply_changes cs w1).messages differ in
      let there = temporary-there nonce stamp now w w1 s cs e apart in
      (
        shown.1 ∙ rw there,
        shown.0,
        rest
            ∙ ap (λ v. remove_message m.id v.messages)
                (changes-without nonce stamp now w w1 s cs e absent apart)
            ∙ remove-absent m.id (apply_changes cs w).messages new,
      )
