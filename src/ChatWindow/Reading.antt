-- ===== src/ChatWindow/Reading.antt =====
-- The read receipts of a chat window against a definition that walks the list once.
use zero_mes.Common.{
  ℕ, suc, ◌≡◌, ◌<◌, refl, String, true, false, none, some, List, [], ◌∷◌, str_eq, arith,
  if◌then◌else◌, Bool-cases, inl, inr,
}
use zero_mes.ChatWindow.{
  Message, exists, is_ours, marked, find_index, mark_up_to, mark_read, mark_found,
}

abbrev pub mark_one : String → Message → Message
mark_one companion m = if is_ours companion m then marked m else m

-- Walks to the first message with the id and marks ours on the way; no message is marked when there is
-- none with the id.
abbrev pub mark_until : String → String → List Message → List Message
mark_until companion id [] = []
mark_until companion id (m ∷ ms) =
    let rest = mark_until companion id ms in
    if str_eq m.id id
    then mark_one companion m ∷ ms
    else if exists id ms
    then mark_one companion m ∷ rest
    else m ∷ ms

-- An index that is moved on by one marks the same as a bound that is moved back.
mark_up_to-suc :
    (companion : String) (last i : ℕ) (ms : List Message)
    → mark_up_to companion (suc last) (suc i) ms ≡ mark_up_to companion last i ms
unfolding mark_up_to
mark_up_to-suc companion last i [] = refl
mark_up_to-suc companion last i (m ∷ ms) = ground (arith, mark_up_to-suc companion last (suc i) ms)

-- Nothing is marked behind the bound.
mark_up_to-past :
    (companion : String) (last i : ℕ) (ms : List Message)
    → last < i
    → mark_up_to companion last i ms ≡ ms
unfolding mark_up_to
mark_up_to-past companion last i [] l = refl
mark_up_to-past companion last i (m ∷ ms) l =
    ground (arith, mark_up_to-past companion last (suc i) ms)

find_index-absent :
    (id : String) (ms : List Message) → exists id ms ≡ false → find_index id ms ≡ none
unfolding exists find_index
find_index-absent id [] e = refl
find_index-absent id (m ∷ ms) e = ground (arith, find_index-absent id ms)

data Found (id : String) (ms : List Message) : Type 0 where
  absent : exists id ms ≡ false → find_index id ms ≡ none → Found id ms
  present : (i : ℕ) → exists id ms ≡ true → find_index id ms ≡ some i → Found id ms

search_message : (id : String) (ms : List Message) → Found id ms
unfolding exists find_index
search_message id [] = absent refl refl
search_message id (m ∷ ms) = elim (Bool-cases (str_eq m.id id)) [
  | inl s ↦ present 0 (rw s) (rw s)
  | inr s ↦ elim (search_message id ms) [
    | absent e f ↦ absent (rw (s, e)) (rw (s, f))
    | present i e f ↦ present (suc i) (rw (s, e)) (rw (s, f))
  ]
]

-- A receipt marks our messages up to the first one with its id, that one included, and leaves every other
-- message, and the whole list when no message has the id.
pub mark_read-mark_until :
    (companion id : String) (ms : List Message)
    → mark_read companion id ms ≡ mark_until companion id ms
unfolding exists find_index mark_up_to mark_read mark_found
mark_read-mark_until companion id [] = refl
mark_read-mark_until companion id (m ∷ ms) = elim (Bool-cases (str_eq m.id id)) [
  | inl s ↦ ground (arith, s, mark_up_to-past companion 0 1 ms)
  | inr s ↦ elim (search_message id ms) [
    | absent e f ↦ rw (s, e, f)
    | present i e f ↦
        ground
          (arith, s, e, f, mark_up_to-suc companion i 0 ms, mark_read-mark_until companion id ms)
  ]
]
