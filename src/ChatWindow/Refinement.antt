-- ===== src/ChatWindow/Refinement.antt =====
-- What a chat window shows is the conversation: its frames carry what was said, withdrawn and rewritten,
-- encrypted under the chat key, and the window follows.
use zero_mes.Common.{
  ℕ, zero, suc, ◌≡◌, refl, true, ◌++◌, get_elem?, Bool-cases, inl, inr, if◌then◌else◌, ap, sym,
  subst, ◌∙◌, String, true, Option, none, some, List, [], ◌∷◌, length,
}
use zero_mes.Crypto.Primitives.{Bytes, Encoding, Subtle, JsonText}
use zero_mes.Crypto.Encryption as Encryption
use zero_mes.Crypto.Encryption.{
  Result, ok, err, EncryptedMessage, ◌>>=◌, to_json, is_crypto_available, encrypt_message,
  decrypt_message_content,
}
use zero_mes.ChatWindow.{Chat, Window}
use zero_mes.ChatWindow.Frames.{
  Frame, Change, insert, remove, alter, mark, apply_change, make_change, frame_under, change_of,
  on_frame,
}
use zero_mes.ChatWindow.View.{Conversation, Event, is_late, follow, view}
use zero_mes.ChatWindow.Carried.{Carries, change-follow, awaits-is_late}
use zero_mes.ChatWindow.Awaiting.{
  Handling, awaits, Occurrence, arrives, ends, remove_at, arrive, end_await, occur, occur_all,
}

apply_change-chat :
    (c : Change) (w : Window)
    → ((apply_change c w).chat ≡ w.chat) × ((apply_change c w).chat_key ≡ w.chat_key)
unfolding apply_change
apply_change-chat (insert m) w = (refl, refl)
apply_change-chat (remove id) w = (refl, refl)
apply_change-chat (alter id content plain) w = (refl, refl)
apply_change-chat (mark id) w = (refl, refl)

make_change-chat :
    (c : Option Change) (w : Window)
    → ((make_change c w).chat ≡ w.chat) × ((make_change c w).chat_key ≡ w.chat_key)
make_change-chat none w = (refl, refl)
make_change-chat (some c) w = apply_change-chat c w

-- A conversation, and what is on its way into it.
pub record Told : Type 0 where
  pub conversation : Conversation
  pub coming : List Event

-- An event of the conversation, or the end of what is on its way at a place.
pub data Turn : Type 0 where
  begins : Event → Turn
  comes : (place : ℕ) → Turn

abbrev pub set_out : Event → Told → Told
set_out e t =
    if is_late e
    then record t { coming = t.coming ++ e ∷ [] }
    else record t { conversation = follow e t.conversation }

abbrev pub come : ℕ → Option Event → Told → Told
come i none t = t
come i (some e) t = record { conversation = follow e t.conversation; coming = remove_at i t.coming }

-- What is withdrawn goes at once, what is said or rewritten takes effect when it has come.
abbrev pub tell : Turn → Told → Told
tell (begins e) t = set_out e t
tell (comes i) t = come i (get_elem? t.coming i) t

abbrev pub tell_all : List Turn → Told → Told
tell_all [] t = t
tell_all (u ∷ us) t = tell_all us (tell u t)

module _ (browser : Encryption.Window) (enc : Encoding) (subtle : Subtle) (json : JsonText) where
  -- Frames that arrive, and decryptions that end, carry the turns of a conversation.
  pub data Story (chat : Chat) (key : Bytes) : List Occurrence → List Turn → Type 0 where
    story_ends : Story chat key [] []
    story_begins :
        (now : String) (f : Frame) {os : List Occurrence} (e : Event) {us : List Turn}
        → Carries browser enc subtle json chat key f e
        → Story chat key os us
        → Story chat key (arrives now f ∷ os) (begins e ∷ us)
    story_comes :
        (i : ℕ) (now : String) {os : List Occurrence} {us : List Turn}
        → Story chat key os us
        → Story chat key (ends i now ∷ os) (comes i ∷ us)

  -- The frames that are awaited carry what is on its way.
  data Waits (chat : Chat) (key : Bytes) : List Frame → List Event → Type 0 where
    none_waits : Waits chat key [] []
    one_waits :
        (f : Frame) (e : Event) {fs : List Frame} {es : List Event}
        → Carries browser enc subtle json chat key f e
        → Waits chat key fs es
        → Waits chat key (f ∷ fs) (e ∷ es)

  Waits-append :
      (chat : Chat) (key : Bytes) (f : Frame) (e : Event) {fs : List Frame} {es : List Event}
      → Carries browser enc subtle json chat key f e
      → Waits chat key fs es
      → Waits chat key (fs ++ f ∷ []) (es ++ e ∷ [])
  Waits-append chat key f e c none_waits = one_waits f e c none_waits
  Waits-append chat key f e c (one_waits g d k w) = one_waits g d k (Waits-append chat key f e c w)

  -- What waits at a place, on both sides.
  Both : Chat → Bytes → Option Frame → Option Event → Type 0
  Both chat key none none = Unit
  Both chat key none (some e) = ⊥
  Both chat key (some f) none = ⊥
  Both chat key (some f) (some e) = Carries browser enc subtle json chat key f e

  Waits-get_elem :
      (chat : Chat) (key : Bytes) (i : ℕ) {fs : List Frame} {es : List Event}
      → Waits chat key fs es
      → Both chat key (get_elem? fs i) (get_elem? es i)
  unfolding Both
  Waits-get_elem chat key i none_waits = tt
  Waits-get_elem chat key zero (one_waits f e c w) = c
  Waits-get_elem chat key (suc i) (one_waits f e c w) = Waits-get_elem chat key i w

  Waits-remove :
      (chat : Chat) (key : Bytes) (i : ℕ) {fs : List Frame} {es : List Event}
      → Waits chat key fs es
      → Waits chat key (remove_at i fs) (remove_at i es)
  Waits-remove chat key zero none_waits = none_waits
  Waits-remove chat key (suc i) none_waits = none_waits
  Waits-remove chat key zero (one_waits f e c w) = w
  Waits-remove chat key (suc i) (one_waits f e c w) = one_waits f e c (Waits-remove chat key i w)

  frame_under-chat :
      (now : String) (f : Frame) (k : Option Bytes) (w : Window)
      → ((frame_under browser enc subtle json now f k w).chat ≡ w.chat)
        × ((frame_under browser enc subtle json now f k w).chat_key ≡ w.chat_key)
  unfolding frame_under
  frame_under-chat now f none w = (refl, refl)
  frame_under-chat now f (some key) w =
      make_change-chat (change_of browser enc subtle json w.chat key now f) w

  on_frame-chat :
      (now : String) (f : Frame) (w : Window)
      → ((on_frame browser enc subtle json now f w).chat ≡ w.chat)
        × ((on_frame browser enc subtle json now f w).chat_key ≡ w.chat_key)
  unfolding on_frame
  on_frame-chat now f w = frame_under-chat now f w.chat_key w

  module _ (available : is_crypto_available browser ≡ true) (key : Bytes)
      (size : length key ≡ 32) where
    frame_under-follow :
        (now : String) (w : Window) (f : Frame) (e : Event)
        → w.chat_key ≡ some key
        → Carries browser enc subtle json w.chat key f e
        → view (on_frame browser enc subtle json now f w).messages ≡ follow e (view w.messages)
    unfolding on_frame frame_under
    frame_under-follow now w f e k c =
        ap (λ o. view (frame_under browser enc subtle json now f o w).messages) k
        ∙ change-follow browser enc subtle json available key size now w f e c

    -- The window shows the conversation, and awaits what is on its way.
    record Shows (chat : Chat) (h : Handling) (t : Told) : Type 0 where
      same_chat : h.window.chat ≡ chat
      same_key : h.window.chat_key ≡ some key
      shown : view h.window.messages ≡ t.conversation
      waits : Waits chat key h.awaiting t.coming

    on_frame-Shows :
        (chat : Chat) (now : String) (f : Frame) (e : Event) (h : Handling) (t : Told)
        (fs : List Frame) (es : List Event)
        → Carries browser enc subtle json chat key f e
        → Waits chat key fs es
        → Shows chat h t
        → Shows chat
            (record { window = on_frame browser enc subtle json now f h.window; awaiting = fs })
            (record { conversation = follow e t.conversation; coming = es })
    on_frame-Shows chat now f e h t fs es c w s =
        let same = on_frame-chat now f h.window in
        record {
          same_chat = same.0 ∙ s.same_chat;
          same_key = same.1 ∙ s.same_key;
          shown =
              frame_under-follow now h.window f e s.same_key
                (subst (λ x. Carries browser enc subtle json x key f e) (sym s.same_chat) c)
              ∙ ap (follow e) s.shown;
          waits = w;
        }

    arrive-Shows :
        (chat : Chat) (now : String) (f : Frame) (e : Event) (h : Handling) (t : Told)
        → Carries browser enc subtle json chat key f e
        → Shows chat h t
        → Shows chat (arrive browser enc subtle json now f (some key) h) (set_out e t)
    unfolding arrive
    arrive-Shows chat now f e h t c s =
        let late = awaits-is_late browser enc subtle json available key size chat f e c in
        let waits : awaits h.window.chat f ≡ is_late e = ap (λ x. awaits x f) s.same_chat ∙ late in
        elim (Bool-cases (is_late e)) [
          | inl y ↦
              rw (waits, y)
                (record {
                  same_chat = s.same_chat;
                  same_key = s.same_key;
                  shown = s.shown;
                  waits = Waits-append chat key f e c s.waits;
                })
          | inr n ↦ rw (waits, n) (on_frame-Shows chat now f e h t h.awaiting t.coming c s.waits s)
        ]

    end_await-Shows :
        (chat : Chat) (i : ℕ) (now : String) (h : Handling) (t : Told) (f : Option Frame)
        (e : Option Event)
        → Both chat key f e
        → Shows chat h t
        → Shows chat (end_await browser enc subtle json i now f h) (come i e t)
    unfolding end_await Both
    end_await-Shows chat i now h t none none b s = s
    end_await-Shows chat i now h t none (some e) b s = absurd b
    end_await-Shows chat i now h t (some f) none b s = absurd b
    end_await-Shows chat i now h t (some f) (some e) b s =
        on_frame-Shows chat now f e h t (remove_at i h.awaiting) (remove_at i t.coming) b
          (Waits-remove chat key i s.waits) s

    occur_all-Shows :
        (chat : Chat) (h : Handling) (t : Told) {os : List Occurrence} {us : List Turn}
        → Story chat key os us
        → Shows chat h t
        → Shows chat (occur_all browser enc subtle json os h) (tell_all us t)
    unfolding occur_all occur
    occur_all-Shows chat h t story_ends s = s
    occur_all-Shows chat h t (story_begins now f {os} e {us} c rest) s =
        occur_all-Shows chat (arrive browser enc subtle json now f h.window.chat_key h)
          (set_out e t) rest
          (subst (λ k. Shows chat (arrive browser enc subtle json now f k h) (set_out e t))
            (sym s.same_key) (arrive-Shows chat now f e h t c s))
    occur_all-Shows chat h t (story_comes i now {os} {us} rest) s =
        occur_all-Shows chat (end_await browser enc subtle json i now (get_elem? h.awaiting i) h)
          (come i (get_elem? t.coming i) t) rest
          (end_await-Shows chat i now h t (get_elem? h.awaiting i) (get_elem? t.coming i)
            (Waits-get_elem chat key i s.waits) s)

    -- Whenever frames arrive and in whatever order their decryptions end, a chat window shows the conversation that they carry:
    -- a message is added when its decryption has ended, unless one with its id is shown then, a text is rewritten when its decryption
    -- has ended, and a message is withdrawn when the frame arrives, so that a withdrawal that overtakes the decryption of its
    -- message is lost. Receipts and new messages of other chats change nothing of what is shown. The texts are encrypted on the way, and come out less a byte order
    -- mark at the start. The window has its chat key of 32 bytes, and Web Crypto is available.
    pub occur_all-tell_all :
        (chat : Chat) (w : Window) {os : List Occurrence} {us : List Turn}
        → w.chat ≡ chat
        → w.chat_key ≡ some key
        → Story chat key os us
        → view
            (occur_all browser enc subtle json os
              (record { window = w; awaiting = [] })).window.messages
          ≡ (tell_all us (record { conversation = view w.messages; coming = [] })).conversation
    occur_all-tell_all chat w c k story =
        (occur_all-Shows chat (record { window = w; awaiting = [] })
          (record { conversation = view w.messages; coming = [] }) story
          (record { same_chat = c; same_key = k; shown = refl; waits = none_waits })).shown
