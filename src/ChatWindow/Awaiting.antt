-- ===== src/ChatWindow/Awaiting.antt =====
-- The handler of ChatWindow.tsx for frames of the WebSocket while it awaits decryptions: it is called for each
-- frame that arrives, also while its calls for earlier frames still await theirs.
use zero_mes.Common.{
  ℕ, zero, suc, String, Bool, false, Option, none, some, List, [], ◌∷◌, ◌++◌, ◌&&◌, get_elem?,
  is_some, if◌then◌else◌,
}
use zero_mes.Crypto.Primitives.{Bytes, Encoding, Subtle, JsonText}
use zero_mes.Crypto.Encryption as Encryption
use zero_mes.ChatWindow.{Chat, Window}
use zero_mes.ChatWindow.Frames.{
  Frame, message_sent, new_message, message_deleted, message_altered, message_read, other, is_same,
  given, on_frame,
}

-- The window, and the frames whose decryption has not ended, in the order in which they came.
pub record Handling : Type 0 where
  pub window : Window
  pub awaiting : List Frame

-- Is there a decryption to await?
unfoldable pub awaits : Chat → Frame → Bool
awaits chat message_sent = false
awaits chat (new_message none) = false
awaits chat (new_message (some p)) = is_same p.chat_id chat.id
awaits chat (message_deleted id) = false
awaits chat (message_altered id content) = is_some (given id) && is_some (given content)
awaits chat (message_read chat_id last) = false
awaits chat (other _) = false

-- A frame arrives, or the decryption of one that awaits it ends; `now` is the time then.
pub data Occurrence : Type 0 where
  arrives : (now : String) → Frame → Occurrence
  ends : (place : ℕ) (now : String) → Occurrence

abbrev pub remove_at {ℓ} : {A : Type ℓ} → ℕ → List A → List A
remove_at i [] = []
remove_at zero (x ∷ xs) = xs
remove_at (suc i) (x ∷ xs) = x ∷ remove_at i xs

module _ (browser : Encryption.Window) (enc : Encoding) (subtle : Subtle) (json : JsonText) where
  -- Without a key nothing is subscribed.
  unfoldable pub arrive : String → Frame → Option Bytes → Handling → Handling
  unfolding awaits on_frame
  arrive now f none h = h
  arrive now f (some key) h =
      if awaits h.window.chat f
      then record h { awaiting = h.awaiting ++ f ∷ [] }
      else record h { window = on_frame browser enc subtle json now f h.window }

  unfoldable pub end_await : ℕ → String → Option Frame → Handling → Handling
  unfolding on_frame
  end_await i now none h = h
  end_await i now (some f) h = record {
    window = on_frame browser enc subtle json now f h.window;
    awaiting = remove_at i h.awaiting;
  }

  unfoldable pub occur : Occurrence → Handling → Handling
  unfolding arrive end_await
  occur (arrives now f) h = arrive now f h.window.chat_key h
  occur (ends i now) h = end_await i now (get_elem? h.awaiting i) h

  unfoldable pub occur_all : List Occurrence → Handling → Handling
  unfolding occur
  occur_all [] h = h
  occur_all (o ∷ os) h = occur_all os (occur o h)
