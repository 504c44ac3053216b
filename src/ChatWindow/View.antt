-- ===== src/ChatWindow/View.antt =====
-- A conversation as its members see it, and the part of a chat window that shows one.
use zero_mes.Common.{
  ℕ, suc, ◌≡◌, refl, String, Bool, true, false, not, Option, none, some, List, [], ◌∷◌, ◌++◌, map,
  ◌||◌, str_eq, arith, select, if◌then◌else◌, Bool-cases, inl, inr,
}
use zero_mes.Crypto.Primitives.{strip_bom}
use zero_mes.ChatWindow.{
  Message, exists, insert_new, remove_message, alter_message, mark_up_to, mark_found,
}

-- One message of a conversation, without its sender and its receipts.
pub record Entry : Type 0 where
  pub id : String
  pub text : Option String

abbrev pub Conversation : Type 0
Conversation = List Entry

pub data Event : Type 0 where
  said rewrote : (id text : String) → Event
  withdrew : String → Event
  quiet : Event

abbrev pub is_there : String → Conversation → Bool
is_there id [] = false
is_there id (e ∷ es) = str_eq e.id id || is_there id es

-- What an event does to a conversation.
abbrev pub follow : Event → Conversation → Conversation
follow (said id t) c =
    if is_there id c then c else c ++ record { id = id; text = some (strip_bom t) } ∷ []
follow (rewrote id t) c =
    map (λ e. if str_eq e.id id then record e { text = some (strip_bom t) } else e) c
follow (withdrew id) c = select (λ e. not (str_eq e.id id)) c
follow quiet c = c

-- Has an event a text, so that its frame is decrypted?
abbrev pub is_late : Event → Bool
is_late (said id t) = true
is_late (rewrote id t) = true
is_late (withdrew id) = false
is_late quiet = false

abbrev pub entry : Message → Entry
entry m = record { id = m.id; text = m.decrypted_content }

-- What the window shows of its messages.
abbrev pub view : List Message → Conversation
view = map entry

exists-view : (id : String) (ms : List Message) → is_there id (view ms) ≡ exists id ms
unfolding exists
exists-view id [] = refl
exists-view id (m ∷ ms) = rw (exists-view id ms)

view-append : (ms ns : List Message) → view (ms ++ ns) ≡ view ms ++ view ns
view-append [] ns = refl
view-append (m ∷ ms) ns = rw (view-append ms ns)

pub view-insert :
    (m : Message) (t : String) (ms : List Message)
    → m.decrypted_content ≡ some (strip_bom t)
    → view (insert_new m ms) ≡ follow (said m.id t) (view ms)
unfolding insert_new
view-insert m t ms e = elim (Bool-cases (exists m.id ms)) [
  | inl f ↦ rw (exists-view m.id ms, f)
  | inr f ↦ rw (exists-view m.id ms, f, view-append ms (m ∷ []), e)
]

pub view-remove :
    (id : String) (ms : List Message) → view (remove_message id ms) ≡ follow (withdrew id) (view ms)
unfolding remove_message
view-remove id [] = refl
view-remove id (m ∷ ms) = ground (arith, view-remove id ms)

pub view-alter :
    (id content t : String) (ms : List Message)
    → view (alter_message id content (strip_bom t) ms) ≡ follow (rewrote id t) (view ms)
unfolding alter_message
view-alter id content t [] = refl
view-alter id content t (m ∷ ms) = ground (arith, view-alter id content t ms)

view-mark :
    (companion : String) (last i : ℕ) (ms : List Message)
    → view (mark_up_to companion last i ms) ≡ view ms
unfolding mark_up_to
view-mark companion last i [] = refl
view-mark companion last i (m ∷ ms) = ground (arith, view-mark companion last (suc i) ms)

pub view-mark_found :
    (companion : String) (ms : List Message) (found : Option ℕ)
    → view (mark_found companion ms found) ≡ view ms
unfolding mark_found
view-mark_found companion ms none = refl
view-mark_found companion ms (some i) = view-mark companion i 0 ms
