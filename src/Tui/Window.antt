-- ===== src/Tui/Window.antt =====
-- Which lines of a list are on the screen: `tui_visible_start` of src/tui.c.
use hyperflux.Common.{ℕ, ◌+◌, ◌-◌, ◌/◌, ◌≤◌, ◌<◌, max, ◌||◌, arith, ltb, leb, ◌==◌, if◌then◌else◌}

-- Each subtraction is behind a test that keeps it from going below zero.
unfoldable pub visible_start : ℕ → ℕ → ℕ → ℕ
visible_start cursor len max_visible =
    if max_visible == 0 || leb len max_visible
    then 0
    else let half = max_visible / 2 in
      let maxstart = len - max_visible in
      let start = if ltb half cursor then cursor - half else 0 in
      if ltb maxstart start then maxstart else start

-- For a cursor on the list and a screen of one line or more, the cursor is on the screen, and the
-- screen runs past the end of the list only where it is longer than the list.
pub visible_start_window :
    (cursor len max_visible : ℕ)
    → cursor < len
    → 0 < max_visible
    → (visible_start cursor len max_visible ≤ cursor)
      × ((cursor < visible_start cursor len max_visible + max_visible)
          × (visible_start cursor len max_visible + max_visible ≤ max len max_visible))
unfolding visible_start
visible_start_window cursor len max_visible h k =
    (ground (arith, h, k), (ground (arith, h, k), ground (arith, h, k)))
