-- ===== src/ChatWindow/Unique.antt =====
-- The ids of the messages in a chat window are unique.
use zero_mes.Common.{
  ℕ, suc, ◌≡◌, refl, String, false, not, Option, none, some, List, [], ◌∷◌, ◌++◌, ◌&&◌, ◌||◌,
  str_eq, arith, eq_iff, Bool-cases, inl, inr,
}
use zero_mes.ChatWindow.{
  Message, Window, exists, insert_new, remove_message, alter_message, find_index, mark_up_to,
  mark_read, mark_found,
}
use zero_mes.ChatWindow.Frames.{Change, insert, remove, alter, mark, apply_change, apply_changes}

abbrev pub IsUnique : List Message → Type 0
IsUnique [] = Unit
IsUnique (m ∷ ms) = (exists m.id ms ≡ false) × IsUnique ms

pub exists-append :
    (id : String) (ms ns : List Message) → exists id (ms ++ ns) ≡ (exists id ms || exists id ns)
unfolding exists
exists-append id [] ns = refl
exists-append id (m ∷ ms) ns = ground (arith, exists-append id ms ns)

append-IsUnique :
    (ms : List Message) (m : Message)
    → exists m.id ms ≡ false
    → IsUnique ms
    → IsUnique (ms ++ m ∷ [])
unfolding exists
append-IsUnique [] m e u = (refl, tt)
append-IsUnique (n ∷ ms) m e u = ground (
  arith,
  eq_iff n.id m.id,
  eq_iff m.id n.id,
  exists-append n.id ms (m ∷ []),
  append-IsUnique ms m,
)

pub exists-remove :
    (id other : String) (ms : List Message)
    → exists other (remove_message id ms) ≡ (not (str_eq id other) && exists other ms)
unfolding exists remove_message
exists-remove id other [] = ground arith
exists-remove id other (m ∷ ms) =
    ground (arith, eq_iff m.id id, eq_iff m.id other, eq_iff id other, exists-remove id other ms)

remove-IsUnique : (id : String) (ms : List Message) → IsUnique ms → IsUnique (remove_message id ms)
unfolding remove_message
remove-IsUnique id [] u = tt
remove-IsUnique id (m ∷ ms) u = ground (arith, exists-remove id m.id ms, remove-IsUnique id ms u.1)

pub exists-alter :
    (id content plain other : String) (ms : List Message)
    → exists other (alter_message id content plain ms) ≡ exists other ms
unfolding exists alter_message
exists-alter id content plain other [] = refl
exists-alter id content plain other (m ∷ ms) =
    ground (arith, exists-alter id content plain other ms)

alter-IsUnique :
    (id content plain : String) (ms : List Message)
    → IsUnique ms
    → IsUnique (alter_message id content plain ms)
unfolding alter_message
alter-IsUnique id content plain [] u = tt
alter-IsUnique id content plain (m ∷ ms) u =
    ground (arith, exists-alter id content plain m.id ms, alter-IsUnique id content plain ms u.1)

pub exists-mark :
    (companion : String) (last i : ℕ) (other : String) (ms : List Message)
    → exists other (mark_up_to companion last i ms) ≡ exists other ms
unfolding exists mark_up_to
exists-mark companion last i other [] = refl
exists-mark companion last i other (m ∷ ms) =
    ground (arith, exists-mark companion last (suc i) other ms)

mark-IsUnique :
    (companion : String) (last i : ℕ) (ms : List Message)
    → IsUnique ms
    → IsUnique (mark_up_to companion last i ms)
unfolding mark_up_to
mark-IsUnique companion last i [] u = tt
mark-IsUnique companion last i (m ∷ ms) u =
    ground (
      arith,
      exists-mark companion last (suc i) m.id ms,
      mark-IsUnique companion last (suc i) ms u.1,
    )

insert_new-IsUnique : (m : Message) (ms : List Message) → IsUnique ms → IsUnique (insert_new m ms)
unfolding insert_new
insert_new-IsUnique m ms u = elim (Bool-cases (exists m.id ms)) [
  | inl e ↦ ground (arith, e)
  | inr e ↦ ground (arith, e, append-IsUnique ms m e u)
]

pub exists-insert :
    (id : String) (m : Message) (ms : List Message)
    → str_eq m.id id ≡ false
    → exists id (insert_new m ms) ≡ exists id ms
unfolding insert_new exists
exists-insert id m ms e = ground (arith, exists-append id ms (m ∷ []))

exists-mark_found :
    (companion id : String) (ms : List Message) (found : Option ℕ)
    → exists id (mark_found companion ms found) ≡ exists id ms
unfolding mark_found
exists-mark_found companion id ms none = refl
exists-mark_found companion id ms (some i) = exists-mark companion i 0 id ms

pub exists-mark_read :
    (companion last id : String) (ms : List Message)
    → exists id (mark_read companion last ms) ≡ exists id ms
unfolding mark_read
exists-mark_read companion last id ms = exists-mark_found companion id ms (find_index last ms)

mark_found-IsUnique :
    (companion : String) (ms : List Message) (found : Option ℕ)
    → IsUnique ms
    → IsUnique (mark_found companion ms found)
unfolding mark_found
mark_found-IsUnique companion ms none u = u
mark_found-IsUnique companion ms (some i) u = mark-IsUnique companion i 0 ms u

mark_read-IsUnique :
    (companion last : String) (ms : List Message)
    → IsUnique ms
    → IsUnique (mark_read companion last ms)
unfolding mark_read
mark_read-IsUnique companion last ms u = mark_found-IsUnique companion ms (find_index last ms) u

apply_change-IsUnique :
    (c : Change) (w : Window) → IsUnique w.messages → IsUnique (apply_change c w).messages
unfolding apply_change
apply_change-IsUnique (insert m) w u = insert_new-IsUnique m w.messages u
apply_change-IsUnique (remove id) w u = remove-IsUnique id w.messages u
apply_change-IsUnique (alter id content plain) w u = alter-IsUnique id content plain w.messages u
apply_change-IsUnique (mark id) w u = mark_read-IsUnique w.chat.companion_id id w.messages u

-- Whatever order the decryptions of the incoming frames end in, and however often a frame is
-- delivered, no two messages of the window have the same id afterwards, when none had before.
pub apply_changes-IsUnique :
    (cs : List Change) (w : Window) → IsUnique w.messages → IsUnique (apply_changes cs w).messages
unfolding apply_changes
apply_changes-IsUnique [] w u = u
apply_changes-IsUnique (c ∷ cs) w u =
    apply_changes-IsUnique cs (apply_change c w) (apply_change-IsUnique c w u)
