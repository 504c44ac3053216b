-- ===== src/ChatsPage/Chats.antt =====
-- The updates of the list of chats in ChatsPage.tsx.
use zero_mes.Common.{
  ℕ, ◌+◌, String, Bool, false, Option, none, some, List, [], ◌∷◌, map, ltb, str_eq, if◌then◌else◌,
}
use zero_mes.Crypto.Primitives.{Units}
use zero_mes.Dates.{Clock}
use zero_mes.ChatsPage.{Chat, utf16}

-- Is `b.last_message_at` later than `a.last_message_at`: is the comparator above 0? A date that is invalid makes it
-- NaN, which counts as 0.
abbrev pub is_later : Option ℕ → Option ℕ → Bool
is_later (some s) (some t) = ltb s t
is_later (some _) none = false
is_later none _ = false

module _ (clock : Clock) where
  unfoldable pub time : Chat → Option ℕ
  unfolding utf16
  time c = clock.parse (utf16 c.last_message_at)

  -- `sort` with the comparator b - a, which keeps the order of equals
  unfoldable pub place : Chat → List Chat → List Chat
  unfolding time
  place c [] = c ∷ []
  place c (d ∷ ds) =
      let rest = place c ds in if is_later (time c) (time d) then d ∷ rest else c ∷ d ∷ ds

  unfoldable pub sort_chats : List Chat → List Chat
  unfolding place
  sort_chats [] = []
  sort_chats (c ∷ cs) = place c (sort_chats cs)

-- `prev.map(chat => chat.id === id ? f(chat) : chat)`
abbrev pub at_chat : String → (Chat → Chat) → Chat → Chat
at_chat id f c = if str_eq c.id id then f c else c

abbrev pub or_zero : Option ℕ → ℕ
or_zero none = 0
or_zero (some n) = n

abbrev pub is_selected : Option String → String → Bool
is_selected none id = false
is_selected (some s) id = str_eq s id

-- The chat with the last message that came.
abbrev pub with_message : Units → String → Chat → Chat
with_message text at c = record c { last_message_preview = some text; last_message_at = at }

-- The same, with its unread count.
abbrev pub with_unread : Option String → Units → String → Chat → Chat
with_unread selected text at c = record c {
  last_message_preview = some text;
  last_message_at = at;
  unread_count = some (if is_selected selected c.id then 0 else or_zero c.unread_count + 1);
}

unfoldable pub reset_unread : String → List Chat → List Chat
reset_unread id = map (at_chat id (λ c. record c { unread_count = some 0 }))

-- onlineStatuses: the answers for each chat, `none` where checkOnlineStatus rejects.
pub record OnlineStatus : Type 0 where
  pub companion_id : String
  pub is_online : Bool

abbrev pub or_false : Option Bool → Bool
or_false none = false
or_false (some b) = b

unfoldable pub online_statuses : (String → Option Bool) → List Chat → List OnlineStatus
online_statuses answer [] = []
online_statuses answer (c ∷ cs) =
    (elim (answer c.companion_id) [
      | some b ↦ record { companion_id = c.companion_id; is_online = b }
      | none ↦ record { companion_id = c.companion_id; is_online = or_false c.is_online }
    ])
    ∷ online_statuses answer cs

unfoldable pub find_status : String → List OnlineStatus → Option OnlineStatus
find_status id [] = none
find_status id (s ∷ ss) =
    let rest = find_status id ss in if str_eq s.companion_id id then some s else rest

abbrev pub with_status : Option OnlineStatus → Chat → Chat
with_status none c = c
with_status (some s) c = record c { is_online = some s.is_online }

unfoldable pub update_statuses : List OnlineStatus → List Chat → List Chat
unfolding find_status
update_statuses ss = map (λ c. with_status (find_status c.companion_id ss) c)
