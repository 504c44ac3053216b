-- ===== src/ChatWindow/Marks.antt =====
-- Removing a message and marking others as read can be swapped.
use zero_mes.Common.{
  ◌≡◌, refl, String, true, false, List, [], ◌∷◌, str_eq, arith, eq_iff, Bool-cases, inl, inr,
}
use zero_mes.ChatWindow.{Message, exists, remove_message, is_ours}
use zero_mes.ChatWindow.Unique.{exists-remove}
use zero_mes.ChatWindow.Reading.{mark_until, mark_one}

mark_until-absent :
    (companion i : String) (ms : List Message)
    → exists i ms ≡ false
    → mark_until companion i ms ≡ ms
unfolding exists
mark_until-absent companion i [] e = refl
mark_until-absent companion i (m ∷ ms) e = ground arith

remove-skip :
    (a : String) (m : Message) (ms : List Message)
    → str_eq m.id a ≡ true
    → remove_message a (m ∷ ms) ≡ remove_message a ms
unfolding remove_message
remove-skip a m ms e = rw e

remove-keep :
    (a : String) (m : Message) (ms : List Message)
    → str_eq m.id a ≡ false
    → remove_message a (m ∷ ms) ≡ m ∷ remove_message a ms
unfolding remove_message
remove-keep a m ms e = rw e

mark_one-id : (companion : String) (m : Message) → (mark_one companion m).id ≡ m.id
mark_one-id companion m = elim (Bool-cases (is_ours companion m)) [ inl e ↦ rw e | inr e ↦ rw e ]

mark_until-here :
    (companion i : String) (m : Message) (ms : List Message)
    → str_eq m.id i ≡ true
    → mark_until companion i (m ∷ ms) ≡ mark_one companion m ∷ ms
mark_until-here companion i m ms e = rw e

mark_until-pass :
    (companion i : String) (m : Message) (ms : List Message)
    → str_eq m.id i ≡ false
    → exists i ms ≡ true
    → mark_until companion i (m ∷ ms) ≡ mark_one companion m ∷ mark_until companion i ms
mark_until-pass companion i m ms e f = rw (e, f)

apart_ids :
    (a i : String) (m : Message) → str_eq i a ≡ false → str_eq m.id a ≡ true → str_eq m.id i ≡ false
apart_ids a i m e f = ground (arith, eq_iff m.id a, eq_iff i a, eq_iff m.id i)

remove-mark_until-skip :
    (a companion i : String) (m : Message) (ms : List Message)
    → str_eq i a ≡ false
    → str_eq m.id a ≡ true
    → exists i ms ≡ true
    → remove_message a (mark_until companion i ms) ≡ mark_until companion i (remove_message a ms)
    → remove_message a (mark_until companion i (m ∷ ms))
      ≡ mark_until companion i (remove_message a (m ∷ ms))
remove-mark_until-skip a companion i m ms e here there rest = rw (
  mark_until-pass companion i m ms (apart_ids a i m e here) there,
  remove-skip a (mark_one companion m) (mark_until companion i ms)
      (rw (mark_one-id companion m, here)),
  rest,
  remove-skip a m ms here,
)

remove-mark_until-here :
    (a companion i : String) (m : Message) (ms : List Message)
    → str_eq m.id a ≡ false
    → str_eq m.id i ≡ true
    → remove_message a (mark_until companion i (m ∷ ms))
      ≡ mark_until companion i (remove_message a (m ∷ ms))
remove-mark_until-here a companion i m ms here f = rw (
  mark_until-here companion i m ms f,
  remove-keep a (mark_one companion m) ms (rw (mark_one-id companion m, here)),
  remove-keep a m ms here,
  mark_until-here companion i m (remove_message a ms) f,
)

remove-mark_until-pass :
    (a companion i : String) (m : Message) (ms : List Message)
    → str_eq m.id a ≡ false
    → str_eq m.id i ≡ false
    → exists i ms ≡ true
    → exists i (remove_message a ms) ≡ true
    → remove_message a (mark_until companion i ms) ≡ mark_until companion i (remove_message a ms)
    → remove_message a (mark_until companion i (m ∷ ms))
      ≡ mark_until companion i (remove_message a (m ∷ ms))
remove-mark_until-pass a companion i m ms here f there kept rest = rw (
  mark_until-pass companion i m ms f there,
  remove-keep a (mark_one companion m) (mark_until companion i ms)
      (rw (mark_one-id companion m, here)),
  rest,
  remove-keep a m ms here,
  mark_until-pass companion i m (remove_message a ms) f kept,
)

exists-kept :
    (a i : String) (ms : List Message)
    → str_eq i a ≡ false
    → exists i (remove_message a ms) ≡ exists i ms
exists-kept a i ms e = ground (arith, exists-remove a i ms, eq_iff i a, eq_iff a i)

absent-cons :
    (i : String) (m : Message) (ms : List Message)
    → str_eq m.id i ≡ false
    → exists i ms ≡ false
    → exists i (m ∷ ms) ≡ false
unfolding exists
absent-cons i m ms e f = rw (e, f)

remove-mark_until-absent :
    (a companion i : String) (ms : List Message)
    → str_eq i a ≡ false
    → exists i ms ≡ false
    → remove_message a (mark_until companion i ms) ≡ mark_until companion i (remove_message a ms)
remove-mark_until-absent a companion i ms e f = rw (
  mark_until-absent companion i ms f,
  mark_until-absent companion i (remove_message a ms) (rw (exists-kept a i ms e, f)),
)

pub remove-mark_until :
    (a companion i : String) (ms : List Message)
    → str_eq i a ≡ false
    → remove_message a (mark_until companion i ms) ≡ mark_until companion i (remove_message a ms)
unfolding remove_message exists
remove-mark_until a companion i [] e = refl
remove-mark_until a companion i (m ∷ ms) e =
    let rest = remove-mark_until a companion i ms e in
    elim (Bool-cases (str_eq m.id i)) [
      | inl f ↦
          remove-mark_until-here a companion i m ms
            (ground (arith, f, e, eq_iff m.id i, eq_iff m.id a, eq_iff i a)) f
      | inr f ↦ elim (Bool-cases (exists i ms)) [
        | inr there ↦ remove-mark_until-absent a companion i (m ∷ ms) e (absent-cons i m ms f there)
        | inl there ↦ elim (Bool-cases (str_eq m.id a)) [
          | inl here ↦ remove-mark_until-skip a companion i m ms e here there rest
          | inr here ↦
              remove-mark_until-pass a companion i m ms here f there
                (rw (exists-kept a i ms e, there)) rest
        ]
      ]
    ]
