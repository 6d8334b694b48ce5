-- ===== src/Viewport/Measure.antt =====
-- What a measurement of an item does to the cache and to the index: in the visible range
-- (`layoutVirtualList`), at the tail of a list that starts there (`measureListTail`), and in the leading
-- items that decide on the height of a list (`intrinsicListViewport`).
use ciwi.Base.{ℕ, max, String, Option, none, some, if◌then◌else◌}
use ciwi.Base.Int.{ℤ, is_negative, pos}
use ciwi.Viewport.{KeyedViewportState, set_extent}
use ciwi.Viewport.Recency.{remember}

-- The item whose size was forgotten goes back to the estimate.
unfoldable pub forget_extent : ℕ → Option ℤ → KeyedViewportState → KeyedViewportState
forget_extent estimate none s = s
forget_extent estimate (some index) s = if is_negative index then s else set_extent s index estimate

unfoldable pub measure_visible : ℕ → ℕ → String → ℕ → ℕ → KeyedViewportState → KeyedViewportState
measure_visible estimate limit key index size s =
    let main_size = max 1 size in
    let remembered = remember key (pos index) main_size limit s in
    forget_extent estimate remembered.1 (set_extent remembered.0 (pos index) main_size)

unfoldable pub measure_tail : ℕ → ℕ → String → ℕ → ℕ → KeyedViewportState → KeyedViewportState
measure_tail estimate limit key index size s =
    let main_size = max 1 size in
    let remembered =
      remember key (pos index) main_size limit (set_extent s (pos index) main_size) in
    forget_extent (max 1 estimate) remembered.1 remembered.0

unfoldable pub measure_leading : ℕ → String → ℕ → ℕ → KeyedViewportState → KeyedViewportState
measure_leading limit key index size s =
    let main_size = max 1 size in
    (remember key (pos index) main_size limit (set_extent s (pos index) main_size)).0
