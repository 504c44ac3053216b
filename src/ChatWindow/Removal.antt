-- ===== src/ChatWindow/Removal.antt =====
-- Removing a message by its id, and the changes of incoming frames that are not about it.
use zero_mes.Common.{◌≡◌, refl, ap, ◌∙◌, String, false, List, [], ◌∷◌, ◌++◌, str_eq, arith, eq_iff}
use zero_mes.ChatWindow.{Message, Window, exists, insert_new, remove_message, alter_message}
use zero_mes.ChatWindow.Frames.{Change, insert, remove, alter, mark, apply_change, apply_changes}
use zero_mes.ChatWindow.Unique.{exists-remove}
use zero_mes.ChatWindow.Reading.{mark_read-mark_until}
use zero_mes.ChatWindow.Marks.{remove-mark_until}

-- No change is about the message with this id. (That an alteration is apart is not needed.)
abbrev pub IsApart : String → Change → Type 0
IsApart id (insert m) = str_eq m.id id ≡ false
IsApart id (remove i) = str_eq i id ≡ false
IsApart id (alter i content plain) = str_eq i id ≡ false
IsApart id (mark i) = str_eq i id ≡ false

abbrev pub AreApart : String → List Change → Type 0
AreApart id [] = Unit
AreApart id (c ∷ cs) = IsApart id c × AreApart id cs

pub remove-append :
    (id : String) (ms ns : List Message)
    → remove_message id (ms ++ ns) ≡ remove_message id ms ++ remove_message id ns
unfolding remove_message
remove-append id [] ns = refl
remove-append id (m ∷ ms) ns = ground (arith, remove-append id ms ns)

pub remove-absent :
    (id : String) (ms : List Message) → exists id ms ≡ false → remove_message id ms ≡ ms
unfolding remove_message exists
remove-absent id [] e = refl
remove-absent id (m ∷ ms) e = ground (arith, remove-absent id ms)

remove-swap :
    (a b : String) (ms : List Message)
    → remove_message a (remove_message b ms) ≡ remove_message b (remove_message a ms)
unfolding remove_message
remove-swap a b [] = refl
remove-swap a b (m ∷ ms) = ground (arith, remove-swap a b ms)

remove-alter :
    (a i content plain : String) (ms : List Message)
    → remove_message a (alter_message i content plain ms)
      ≡ alter_message i content plain (remove_message a ms)
unfolding remove_message alter_message
remove-alter a i content plain [] = refl
remove-alter a i content plain (m ∷ ms) = ground (arith, remove-alter a i content plain ms)

remove-insert :
    (a : String) (m : Message) (ms : List Message)
    → str_eq m.id a ≡ false
    → remove_message a (insert_new m ms) ≡ insert_new m (remove_message a ms)
unfolding insert_new
remove-insert a m ms e = ground (
  arith,
  exists-remove a m.id ms,
  remove-append a ms (m ∷ []),
  remove-absent a (m ∷ []),
  eq_iff a m.id,
  eq_iff m.id a,
)

-- Removing a message and a change that is not about it can be swapped.
pub remove-change :
    (id : String) (c : Change) (w : Window)
    → IsApart id c
    → remove_message id (apply_change c w).messages
      ≡ (apply_change c (record w { messages = remove_message id w.messages })).messages
unfolding apply_change
remove-change id (insert m) w e = remove-insert id m w.messages e
remove-change id (remove i) w e = remove-swap id i w.messages
remove-change id (alter i content plain) w e = remove-alter id i content plain w.messages
remove-change id (mark i) w e = rw (
  mark_read-mark_until w.chat.companion_id i w.messages,
  remove-mark_until id w.chat.companion_id i w.messages e,
  mark_read-mark_until w.chat.companion_id i (remove_message id w.messages),
)

unfoldable pub without : String → Window → Window
without id w = record w { messages = remove_message id w.messages }

without-change :
    (id : String) (c : Change) (w : Window)
    → IsApart id c
    → without id (apply_change c w) ≡ apply_change c (without id w)
unfolding without apply_change
without-change id (insert m) w e =
    ap (λ l. record w { messages = l }) (remove-change id (insert m) w e)
without-change id (remove i) w e =
    ap (λ l. record w { messages = l }) (remove-change id (remove i) w e)
without-change id (alter i content plain) w e =
    ap (λ l. record w { messages = l }) (remove-change id (alter i content plain) w e)
without-change id (mark i) w e = ap (λ l. record w { messages = l }) (remove-change id (mark i) w e)

pub without-changes :
    (id : String) (cs : List Change) (w : Window)
    → AreApart id cs
    → without id (apply_changes cs w) ≡ apply_changes cs (without id w)
unfolding apply_changes
without-changes id [] w a = refl
without-changes id (c ∷ cs) w a =
    without-changes id cs (apply_change c w) a.1 ∙ ap (apply_changes cs) (without-change id c w a.0)
