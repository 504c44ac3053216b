-- ===== src/ChatsPage/First.antt =====
-- What an incoming message does to the list of chats.
use zero_mes.Common.{
  ◌+◌, ◌≡◌, refl, sym, subst, ap, ◌∙◌, true, false, not, Option, none, some, List, [], ◌∷◌, map,
  All, arith, Bool-cases, inl, inr, String, str_eq, eq_iff, select, if◌then◌else◌,
}
use zero_mes.Crypto.Primitives.{Bytes, Units, Encoding, Subtle, Curve, JsonText}
use zero_mes.Crypto.Encryption as Encryption
use zero_mes.Crypto.Encryption.{Result, ok, err}
use zero_mes.Dates.{Clock}
use zero_mes.ChatsPage.{Chat, Page, find_chat, selected_among}
use zero_mes.ChatsPage.Chats.{
  is_later, time, place, sort_chats, at_chat, is_selected, or_zero, with_unread,
}
use zero_mes.ChatsPage.Handlers.{
  Payload, Server, message_time, bump, show_message, read_message, on_known_chat,
}
use zero_mes.ChatsPage.Order.{later-not_earlier, AreEarlier, IsDescending}

abbrev pub IsNew : String → List Chat → Type 0
IsNew id = All (λ d. str_eq d.id id ≡ false)

abbrev pub IsUniqueIds : List Chat → Type 0
IsUniqueIds [] = Unit
IsUniqueIds (c ∷ cs) = IsNew c.id cs × IsUniqueIds cs

-- The other chats.
abbrev pub others : String → List Chat → List Chat
others id = select (λ c. not (str_eq c.id id))

others-new : (id : String) (cs : List Chat) → IsNew id cs → others id cs ≡ cs
others-new id [] h = refl
others-new id (c ∷ cs) h = rw (h.0, others-new id cs h.1)

map-new :
    (id : String) (f : Chat → Chat) (cs : List Chat) → IsNew id cs → map (at_chat id f) cs ≡ cs
map-new id f [] h = refl
map-new id f (c ∷ cs) h = rw (h.0, map-new id f cs h.1)

IsNew-id : (id i : String) (cs : List Chat) → str_eq i id ≡ true → IsNew i cs → IsNew id cs
IsNew-id id i cs e h =
    let same : i ≡ id = ground (arith, eq_iff i id) in subst (λ x. IsNew x cs) same h

All-others : (P : Chat → Type 0) (id : String) (cs : List Chat) → All P cs → All P (others id cs)
All-others P id [] h = tt
All-others P id (c ∷ cs) h = elim (Bool-cases (str_eq c.id id)) [
  | inl e ↦ rw e (All-others P id cs h.1)
  | inr e ↦ rw e (h.0, All-others P id cs h.1)
]

pub bump-chats : (o : Option Chat) (id : String) (page : Page) → (bump o id page).chats ≡ page.chats
bump-chats none id page = refl
bump-chats (some c) id page = ground arith

module _ (clock : Clock) where
  -- Is the new chat later than all of these?
  unfoldable pub IsLatest : Chat → List Chat → Type 0
  unfolding time
  IsLatest new = All (λ d. is_later (time clock d) (time clock new) ≡ true)

  place-AreEarlier : (c : Chat) (cs : List Chat) → AreEarlier clock c cs → place clock c cs ≡ c ∷ cs
  unfolding place AreEarlier
  place-AreEarlier c [] h = refl
  place-AreEarlier c (d ∷ ds) h = rw h.0

  place-IsLatest : (c : Chat) (cs : List Chat) → IsLatest c cs → place clock c cs ≡ c ∷ cs
  unfolding place IsLatest
  place-IsLatest c [] h = refl
  place-IsLatest c (d ∷ ds) h = rw (later-not_earlier (time clock d) (time clock c) h.0)

  sort-IsDescending-same : (cs : List Chat) → IsDescending clock cs → sort_chats clock cs ≡ cs
  unfolding sort_chats IsDescending
  sort-IsDescending-same [] h = refl
  sort-IsDescending-same (c ∷ cs) h =
      ap (place clock c) (sort-IsDescending-same cs h.1) ∙ place-AreEarlier c cs h.0

  place-later :
      (c d : Chat) (ds : List Chat)
      → is_later (time clock c) (time clock d) ≡ true
      → place clock c (d ∷ ds) ≡ d ∷ place clock c ds
  unfolding place
  place-later c d ds e = rw e

  -- A list in order in which one chat gets the latest time.
  sort-first :
      (id : String) (f : Chat → Chat) (cs : List Chat) (c : Chat)
      → find_chat id cs ≡ some c
      → IsUniqueIds cs
      → IsDescending clock cs
      → IsLatest (f c) (others id cs)
      → sort_chats clock (map (at_chat id f) cs) ≡ f c ∷ others id cs
  unfolding find_chat sort_chats IsDescending IsLatest
  sort-first id f [] c e u h l = ground arith
  sort-first id f (d ∷ ds) c e u h l = elim (Bool-cases (str_eq d.id id)) [
    | inl s ↦
        let new = IsNew-id id d.id ds s u.0 in
        let same : d ≡ c = ground (arith, e, s) in
        let rest : others id (d ∷ ds) ≡ ds = rw s (others-new id ds new) in
        let latest : IsLatest (f d) ds =
          subst (λ x. IsLatest (f x) ds) (sym same) (subst (IsLatest (f c)) rest l) in
        rw (
          s,
          map-new id f ds new,
          sort-IsDescending-same ds h.1,
          place-IsLatest (f d) ds latest,
          others-new id ds new,
          same,
        )
    | inr s ↦
        let rest : others id (d ∷ ds) ≡ d ∷ others id ds = rw s in
        let latest : IsLatest (f c) (d ∷ others id ds) = subst (IsLatest (f c)) rest l in
        let found : find_chat id ds ≡ some c = ground (arith, e, s) in
        let below = All-others (λ x. is_later (time clock d) (time clock x) ≡ false) id ds h.0 in
        rw (
          s,
          sort-first id f ds c found u.1 h.1 latest.1,
          place-later d (f c) (others id ds) latest.0,
          place-AreEarlier d (others id ds) below,
        )
  ]

  -- When a message of a chat in the list is read, and is later than the other chats, its chat comes first, with the
  -- preview, the time and one unread message more, or none where it is open; the other chats follow as they were,
  -- in their order. The ids are unique, and the list was in order.
  pub on_known_chat-first :
      (browser : Encryption.Window) (enc : Encoding) (subtle : Subtle) (curve : Curve)
      (json : JsonText) (private_key : Bytes) (server : Server) (now id : String) (p : Payload)
      (page : Page) (c : Chat) (text : Units)
      → find_chat id page.chats ≡ some c
      → IsUniqueIds page.chats
      → IsDescending clock page.chats
      → read_message clock browser enc subtle curve json private_key server.public_key
          p.encrypted_content
        ≡ ok text
      → IsLatest
          (with_unread page.selected_chat_id text (message_time now p) c)
          (others id page.chats)
      → (on_known_chat clock browser enc subtle curve json private_key server now id p page).chats
        ≡ record c {
          last_message_preview = some text;
          last_message_at = message_time now p;
          unread_count =
              some
                (if is_selected page.selected_chat_id c.id then 0 else or_zero c.unread_count + 1);
        }
          ∷ others id page.chats
  unfolding on_known_chat show_message
  on_known_chat-first browser enc subtle curve json private_key server now id p page c text e u h r
        l =
      bump-chats (selected_among page.selected_chat_id page.chats) id (record page {
        chats =
            show_message clock (λ t. with_unread page.selected_chat_id t (message_time now p)) id
              (read_message clock browser enc subtle curve json private_key server.public_key
                p.encrypted_content)
              page.chats;
      })
      ∙ rw r (
          sort-first id (with_unread page.selected_chat_id text (message_time now p)) page.chats c e
            u h l)
