-- ===== src/Viewport/Listeners.antt =====
-- The listeners that initViewportFix adds and cleanupViewportFix takes away.
use zero_mes.Common.{ℕ, zero, suc, ◌+◌, ◌≡◌, refl, ap, false, length, arith, Bool}
use zero_mes.Viewport.{
  Viewport, update_viewport_height, init_viewport_fix, cleanup_viewport_fix, handle_orientation,
  respond, rotates,
}

-- The page is set up and cleaned up `n` times.
unfoldable pub rounds : Bool → ℕ → Viewport → Viewport
rounds is_ios zero v = v
rounds is_ios (suc n) v = cleanup_viewport_fix (init_viewport_fix is_ios (rounds is_ios n v))

orientation-rounds :
    (is_ios : Bool) (n : ℕ) (v : Viewport)
    → ((rounds is_ios n v).orientation ≡ n + v.orientation)
      × ((rounds is_ios n v).timers ≡ v.timers)
unfolding rounds init_viewport_fix cleanup_viewport_fix update_viewport_height
orientation-rounds is_ios zero v = (omega arith, refl)
orientation-rounds is_ios (suc n) v =
    let (o, t) = orientation-rounds is_ios n v in (omega (arith, o), t)

timers-handle_orientation :
    (n : ℕ) (v : Viewport) → length (handle_orientation n v).timers ≡ n + length v.timers
unfolding handle_orientation
timers-handle_orientation zero v = omega arith
timers-handle_orientation (suc n) v = omega (arith, timers-handle_orientation n v)

-- Cleaning up takes away the listeners of resizes and of the focus, but no listener of rotations: after `n`
-- rounds of set-up and clean-up one rotation starts `n` timers, and as many more as there were listeners.
pub rounds-leave :
    (is_ios : Bool) (n : ℕ) (v : Viewport)
    → (length (respond rotates (rounds is_ios n v)).timers ≡ (n + v.orientation) + length v.timers)
      × ((rounds is_ios (suc n) v).resize ≡ false)
      × ((rounds is_ios (suc n) v).focus ≡ false)
unfolding respond rounds cleanup_viewport_fix
rounds-leave is_ios n v =
    let (o, t) = orientation-rounds is_ios n v in
    let w = rounds is_ios n v in
    (omega (arith, timers-handle_orientation w.orientation w, o, ap (λ x. length x) t), refl, refl)
