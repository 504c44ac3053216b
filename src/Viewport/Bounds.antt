-- ===== src/Viewport/Bounds.antt =====
-- How far `--vh` is from the height of the window.
use zero_mes.Common.{
  ℕ, suc, ◌≤◌, ◌≡◌, refl, true, false, some, List, [], ◌∷◌, ltb, arith, Bool, str_eq, ◌||◌,
  Bool-cases, Option-cases, zero, ◌∙◌, inl, inr, if◌then◌else◌, get_elem?,
}
use zero_mes.Viewport.{
  Viewport, load, distance, update_viewport_height, init_viewport_fix, handle_resize,
  handle_input_focus, handle_input_blur, handle_orientation, run_timer, Event, resizes, rotates,
  focuses, blurs, fires, respond, respond_all, update, scroll,
}

-- While resizes are heard, the property is set, and both it and the window are near the last height.
record Near (v : Viewport) : Type 0 where
  heard : v.resize ≡ true
  window : distance v.inner_height v.last_height ≤ 100
  height : ℕ
  set : v.vh ≡ some height
  near : distance height v.last_height ≤ 100

handle_resize-Near :
    (v : Viewport) (h k : ℕ)
    → v.resize ≡ true
    → v.vh ≡ some k
    → distance k v.last_height ≤ 100
    → Near (handle_resize (record v { inner_height = h }))
unfolding handle_resize update_viewport_height
handle_resize-Near v h k r s n = elim (Bool-cases (ltb 100 (distance h v.last_height))) [
  | inl far ↦
      rw far
        (record { heard = r; window = omega arith; height = h; set = refl; near = omega arith })
  | inr close ↦
      rw close (record { heard = r; window = ground arith; height = k; set = s; near = n })
]

-- The timers and the focus do not matter.
same-Near :
    (v w : Viewport)
    → w.inner_height ≡ v.inner_height
    → w.last_height ≡ v.last_height
    → w.vh ≡ v.vh
    → w.resize ≡ v.resize
    → Near v
    → Near w
same-Near v w i l h r n = record {
  heard = r ∙ n.heard;
  window = rw (i, l) n.window;
  height = n.height;
  set = h ∙ n.set;
  near = rw l n.near;
}

handle_orientation-same :
    (n : ℕ) (v : Viewport)
    → let w = handle_orientation n v in
      (w.inner_height ≡ v.inner_height)
      × (w.last_height ≡ v.last_height)
      × (w.vh ≡ v.vh)
      × (w.resize ≡ v.resize)
unfolding handle_orientation
handle_orientation-same zero v = (refl, refl, refl, refl)
handle_orientation-same (suc n) v = handle_orientation-same n v

update-Near :
    (v w : Viewport)
    → w.inner_height ≡ v.inner_height
    → w.last_height ≡ v.last_height
    → w.resize ≡ v.resize
    → Near v
    → Near (update_viewport_height w)
unfolding update_viewport_height
update-Near v w i l r n = record {
  heard = r ∙ n.heard;
  window = rw (i, l) n.window;
  height = w.inner_height;
  set = refl;
  near = rw (i, l) n.window;
}

run_timer-Near : (k : ℕ) (v : Viewport) → Near v → Near (run_timer k v)
unfolding run_timer
run_timer-Near k v n = elim (Option-cases (get_elem? v.timers k)) [
  | inl e ↦ rw (e, run_timer) n
  | inr ((update, d), e) ↦ rw (e, run_timer) (update-Near v _ refl refl refl n)
  | inr ((scroll, d), e) ↦ rw (e, run_timer) (same-Near v _ refl refl refl refl n)
]

taken-Near : (b : Bool) (v w : Viewport) → b ≡ true → Near v → Near (if b then v else w)
taken-Near b v w t n = rw t n

branch-Near : (b : Bool) (v w : Viewport) → Near v → Near w → Near (if b then v else w)
branch-Near true v w n m = n
branch-Near false v w n m = m

respond-Near : (e : Event) (v : Viewport) → Near v → Near (respond e v)
unfolding respond handle_input_focus handle_input_blur
respond-Near (resizes h) v n =
    taken-Near v.resize (handle_resize (record v { inner_height = h }))
      (record v { inner_height = h }) n.heard (handle_resize-Near v h n.height n.heard n.set n.near)
respond-Near rotates v n =
    let (i, l, h, r) = handle_orientation-same v.orientation v in
    same-Near v (handle_orientation v.orientation v) i l h r n
respond-Near (focuses t) v n =
    branch-Near v.focus (handle_input_focus t v) v
      (branch-Near (str_eq t "INPUT" || str_eq t "TEXTAREA")
        (record v { timers = (scroll, 300) ∷ v.timers }) v (same-Near v _ refl refl refl refl n) n)
      n
respond-Near blurs v n =
    branch-Near v.focus (handle_input_blur v) v (same-Near v _ refl refl refl refl n) n
respond-Near (fires k) v n = run_timer-Near k v n

respond_all-Near : (es : List Event) (v : Viewport) → Near v → Near (respond_all es v)
unfolding respond_all
respond_all-Near [] v n = n
respond_all-Near (e ∷ es) v n = respond_all-Near es (respond e v) (respond-Near e v n)

-- From the set-up on, whatever the browser reports, the height of the window is within 100 pixels of the last
-- one that a resize took over, and `--vh` is set and within 200 pixels of the window.
pub respond_all-Bounds :
    (is_ios : Bool) (start : ℕ) (es : List Event)
    → let v = respond_all es (init_viewport_fix is_ios (load start)) in
      (distance v.inner_height v.last_height ≤ 100)
      × ((height : ℕ) × (v.vh ≡ some height) × (distance height v.inner_height ≤ 200))
unfolding init_viewport_fix load update_viewport_height
respond_all-Bounds is_ios start es =
    let n = respond_all-Near es (init_viewport_fix is_ios (load start)) (record {
      heard = refl;
      window = omega arith;
      height = start;
      set = refl;
      near = omega arith;
    }) in
    (n.window, (n.height, n.set, omega (arith, n.window, n.near)))
