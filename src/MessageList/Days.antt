-- ===== src/MessageList/Days.antt =====
-- The items of the list of messages are its days, each behind one separator.
use zero_mes.Common.{
  ◌≡◌, refl, sym, subst, All, ap, ◌∙◌, true, Option, none, some, List, [], ◌∷◌, ◌++◌, map, arith,
  Bool-cases, inl, inr, ==_iff, if◌then◌else◌,
}
use zero_mes.Crypto.Primitives.{Units}
use zero_mes.Dates.{Clock}
use zero_mes.ChatWindow.{Message}
use zero_mes.MessageList.{
  Item, separator, message, same_units, is_day, day_of, separated, messages_with_separators,
}

same_units-eq : (s t : Units) → same_units s t ≡ true → s ≡ t
same_units-eq [] [] e = refl
same_units-eq [] (b ∷ t) e = let no : ⊥ = ground arith in absurd no
same_units-eq (a ∷ s) [] e = let no : ⊥ = ground arith in absurd no
same_units-eq (a ∷ s) (b ∷ t) e = ground (arith, ==_iff a b, same_units-eq s t)

-- The messages of a day, which are one at least.
pub record DayGroup : Type 0 where
  pub first : Message
  pub later : List Message

module _ (k : Clock) where
  abbrev extend : Message → List DayGroup → List DayGroup
  unfolding day_of
  extend m [] = record { first = m; later = [] } ∷ []
  extend m (d ∷ ds) =
      if same_units (day_of k m) (day_of k d.first)
      then record { first = m; later = d.first ∷ d.later } ∷ ds
      else record { first = m; later = [] } ∷ d ∷ ds

  -- The messages cut where the day changes.
  pub group : List Message → List DayGroup
  unfolding extend
  group [] = []
  group (m ∷ ms) = extend m (group ms)

  abbrev plain : List Message → List Item
  plain = map message

  pub show_day : DayGroup → List Item
  unfolding day_of
  show_day d = separator d.first.created_at (day_of k d.first) ∷ message d.first ∷ plain d.later

  pub show_days : List DayGroup → List Item
  unfolding show_day
  show_days [] = []
  show_days (d ∷ ds) = show_day d ++ show_days ds

  -- The days behind a message of the day `previous`.
  show_behind : Option Units → List DayGroup → List Item
  unfolding show_day show_days day_of
  show_behind previous [] = []
  show_behind previous (d ∷ ds) =
      if is_day previous (day_of k d.first)
      then message d.first ∷ plain d.later ++ show_days ds
      else show_day d ++ show_days ds

  show_behind-extend :
      (previous : Option Units) (m : Message) (ds : List DayGroup)
      → (if is_day previous (day_of k m)
          then message m ∷ show_behind (some (day_of k m)) ds
          else separator m.created_at (day_of k m) ∷ message m ∷ show_behind (some (day_of k m)) ds)
        ≡ show_behind previous (extend m ds)
  unfolding show_behind show_days show_day extend
  show_behind-extend previous m [] = refl
  show_behind-extend previous m (d ∷ ds) =
      elim (Bool-cases (same_units (day_of k m) (day_of k d.first))) [ inl e ↦ rw e | inr e ↦ rw e ]

  separated-group :
      (previous : Option Units) (ms : List Message)
      → separated k previous ms ≡ show_behind previous (group ms)
  unfolding separated show_behind group
  separated-group previous [] = refl
  separated-group previous (m ∷ ms) =
      rw (separated-group (some (day_of k m)) ms) (show_behind-extend previous m (group ms))

  show_behind-none : (ds : List DayGroup) → show_behind none ds ≡ show_days ds
  unfolding show_behind show_days
  show_behind-none [] = refl
  show_behind-none (d ∷ ds) = refl

  -- All messages of the day have the key of the first.
  pub IsOneDay : DayGroup → Type 0
  unfolding day_of
  IsOneDay d = All (λ m. day_of k d.first ≡ day_of k m) d.later

  pub AreOneDay : List DayGroup → Type 0
  unfolding IsOneDay
  AreOneDay = All IsOneDay

  pub ungroup : List DayGroup → List Message
  ungroup [] = []
  ungroup (d ∷ ds) = d.first ∷ d.later ++ ungroup ds

  same_day :
      (a b : Units) (ms : List Message)
      → a ≡ b
      → All (λ m. b ≡ day_of k m) ms
      → All (λ m. a ≡ day_of k m) ms
  same_day a b ms e h = subst (λ x. All (λ m. x ≡ day_of k m) ms) (sym e) h

  extend-AreOneDay : (m : Message) (ds : List DayGroup) → AreOneDay ds → AreOneDay (extend m ds)
  unfolding extend AreOneDay IsOneDay
  extend-AreOneDay m [] h = (tt, tt)
  extend-AreOneDay m (d ∷ ds) h = elim (Bool-cases (same_units (day_of k m) (day_of k d.first))) [
    | inl e ↦
        let same = same_units-eq (day_of k m) (day_of k d.first) e in
        rw e ((same, same_day (day_of k m) (day_of k d.first) d.later same h.0), h.1)
    | inr e ↦ rw e (tt, h)
  ]

  group-AreOneDay : (ms : List Message) → AreOneDay (group ms)
  unfolding group AreOneDay
  group-AreOneDay [] = tt
  group-AreOneDay (m ∷ ms) = extend-AreOneDay m (group ms) (group-AreOneDay ms)

  ungroup-extend : (m : Message) (ds : List DayGroup) → ungroup (extend m ds) ≡ m ∷ ungroup ds
  unfolding extend ungroup
  ungroup-extend m [] = refl
  ungroup-extend m (d ∷ ds) = elim (Bool-cases (same_units (day_of k m) (day_of k d.first))) [
    | inl e ↦ rw e
    | inr e ↦ rw e
  ]

  ungroup-group : (ms : List Message) → ungroup (group ms) ≡ ms
  unfolding group ungroup
  ungroup-group [] = refl
  ungroup-group (m ∷ ms) = ungroup-extend m (group ms) ∙ ap (λ l. m ∷ l) (ungroup-group ms)

  -- The list shows the messages day by day: the messages are cut into groups with the same day key, in their order and
  -- none left out, and each group is shown as one separator with the time of its first message, and then its messages.
  pub messages_with_separators-group :
      (ms : List Message)
      → (messages_with_separators k ms ≡ show_days (group ms))
        × AreOneDay (group ms)
        × (ungroup (group ms) ≡ ms)
  unfolding messages_with_separators
  messages_with_separators-group ms =
      (separated-group none ms ∙ show_behind-none (group ms), group-AreOneDay ms, ungroup-group ms)
