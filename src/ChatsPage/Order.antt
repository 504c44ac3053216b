-- ===== src/ChatsPage/Order.antt =====
-- The order of the list of chats: by the time of the last message, the latest first.
use zero_mes.Common.{
  ℕ, ◌≡◌, refl, subst, true, false, Option, List, [], ◌∷◌, map, All, arith, Bool-cases, inl, inr,
  String, is_some, str_eq,
}
use mathlib.Core.List.{Perm}
use mathlib.Core.List.Perm
use zero_mes.Crypto.Primitives.{Units}
use zero_mes.Crypto.Encryption.{Result, ok, err}
use zero_mes.Dates.{Clock}
use zero_mes.ChatsPage.{Chat}
use zero_mes.ChatsPage.Chats.{is_later, time, place, sort_chats, at_chat}
use zero_mes.ChatsPage.Handlers.{show_message}

pub earlier_trans :
    (a b c : Option ℕ)
    → is_some b ≡ true
    → is_later a b ≡ false
    → is_later b c ≡ false
    → is_later a c ≡ false
earlier_trans a b c s e f = ground arith

pub later-not_earlier : (a b : Option ℕ) → is_later a b ≡ true → is_later b a ≡ false
later-not_earlier a b e = ground arith

pub map-at_chat :
    (field : Chat → String) (id : String) (f : Chat → Chat) (cs : List Chat)
    → ((c : Chat) → field (f c) ≡ field c)
    → map field (map (at_chat id f) cs) ≡ map field cs
map-at_chat field id f [] k = refl
map-at_chat field id f (c ∷ cs) k = elim (Bool-cases (str_eq c.id id)) [
  | inl e ↦ rw (e, k c, map-at_chat field id f cs k)
  | inr e ↦ rw (e, map-at_chat field id f cs k)
]

module _ (clock : Clock) where
  -- Has the chat a time that is no Invalid Date?
  unfoldable pub IsTimed : Chat → Type 0
  unfolding time
  IsTimed c = is_some (time clock c) ≡ true

  unfoldable pub AreEarlier : Chat → List Chat → Type 0
  unfolding time
  AreEarlier c = All (λ d. is_later (time clock c) (time clock d) ≡ false)

  unfoldable pub IsDescending : List Chat → Type 0
  unfolding AreEarlier
  IsDescending [] = Unit
  IsDescending (c ∷ cs) = AreEarlier c cs × IsDescending cs

  All-place :
      (P : Chat → Type 0) (c : Chat) (cs : List Chat) → P c → All P cs → All P (place clock c cs)
  unfolding place
  All-place P c [] p ps = (p, tt)
  All-place P c (d ∷ ds) p ps = elim (Bool-cases (is_later (time clock c) (time clock d))) [
    | inl e ↦ rw e (ps.0, All-place P c ds p ps.1)
    | inr e ↦ rw e (p, ps)
  ]

  AreEarlier-trans :
      (c d : Chat) (ds : List Chat)
      → IsTimed d
      → is_later (time clock c) (time clock d) ≡ false
      → AreEarlier d ds
      → AreEarlier c ds
  unfolding AreEarlier IsTimed
  AreEarlier-trans c d [] t e h = tt
  AreEarlier-trans c d (x ∷ ds) t e h = (
    earlier_trans (time clock c) (time clock d) (time clock x) t e h.0,
    AreEarlier-trans c d ds t e h.1,
  )

  place-IsDescending :
      (c : Chat) (cs : List Chat)
      → All IsTimed (c ∷ cs)
      → IsDescending cs
      → IsDescending (place clock c cs)
  unfolding place IsDescending
  place-IsDescending c [] t h = (tt, tt)
  place-IsDescending c (d ∷ ds) t h = elim (Bool-cases (is_later (time clock c) (time clock d))) [
    | inl e ↦ rw e (
      All-place (λ x. is_later (time clock d) (time clock x) ≡ false) c ds
          (later-not_earlier (time clock c) (time clock d) e) h.0,
      place-IsDescending c ds (t.0, t.1.1) h.1,
    )
    | inr e ↦ rw e ((e, AreEarlier-trans c d ds t.1.0 e h.0), h)
  ]

  All-sort : (P : Chat → Type 0) (cs : List Chat) → All P cs → All P (sort_chats clock cs)
  unfolding sort_chats
  All-sort P [] h = tt
  All-sort P (c ∷ cs) h = All-place P c (sort_chats clock cs) h.0 (All-sort P cs h.1)

  pub sort-IsDescending : (cs : List Chat) → All IsTimed cs → IsDescending (sort_chats clock cs)
  unfolding sort_chats IsDescending
  sort-IsDescending [] h = tt
  sort-IsDescending (c ∷ cs) h =
      place-IsDescending c (sort_chats clock cs) (h.0, All-sort IsTimed cs h.1)
        (sort-IsDescending cs h.1)

  All-at_chat :
      (P : Chat → Type 0) (id : String) (f : Chat → Chat) (cs : List Chat)
      → ((c : Chat) → P c → P (f c))
      → All P cs
      → All P (map (at_chat id f) cs)
  All-at_chat P id f [] k h = tt
  All-at_chat P id f (c ∷ cs) k h = (
    elim (Bool-cases (str_eq c.id id)) [ inl e ↦ rw e (k c h.0) | inr e ↦ rw e h.0 ],
    All-at_chat P id f cs k h.1,
  )

  place-Perm : (c : Chat) (cs : List Chat) → Perm (place clock c cs) (c ∷ cs)
  unfolding place
  place-Perm c [] = Perm.refl (c ∷ [])
  place-Perm c (d ∷ ds) = elim (Bool-cases (is_later (time clock c) (time clock d))) [
    | inl e ↦ rw e (Perm.trans (Perm.cons d (place-Perm c ds)) (Perm.swap c d ds))
    | inr e ↦ rw e (Perm.refl (c ∷ d ∷ ds))
  ]

  sort-Perm : (cs : List Chat) → Perm (sort_chats clock cs) cs
  unfolding sort_chats
  sort-Perm [] = Perm.nil
  sort-Perm (c ∷ cs) = Perm.trans (place-Perm c (sort_chats clock cs)) (Perm.cons c (sort-Perm cs))

  pub show_message-IsDescending :
      (update : Units → Chat → Chat) (id : String) (r : Result Units) (cs : List Chat)
      → ((text : Units) (c : Chat) → IsTimed c → IsTimed (update text c))
      → All IsTimed cs
      → IsDescending cs
      → IsDescending (show_message clock update id r cs)
  unfolding show_message
  show_message-IsDescending update id (err _) cs k t h = h
  show_message-IsDescending update id (ok text) cs k t h =
      sort-IsDescending (map (at_chat id (update text)) cs)
        (All-at_chat IsTimed id (update text) cs (k text) t)

  -- What an update leaves of each chat stays, in some order.
  pub show_message-Perm :
      (field : Chat → String) (update : Units → Chat → Chat) (id : String) (r : Result Units)
      (cs : List Chat)
      → ((text : Units) (c : Chat) → field (update text c) ≡ field c)
      → Perm (map field (show_message clock update id r cs)) (map field cs)
  unfolding show_message
  show_message-Perm field update id (err _) cs k = Perm.refl (map field cs)
  show_message-Perm field update id (ok text) cs k =
      subst (λ l. Perm (map field (sort_chats clock (map (at_chat id (update text)) cs))) l)
        (map-at_chat field id (update text) cs (k text))
        (Perm.map field (sort-Perm (map (at_chat id (update text)) cs)))
