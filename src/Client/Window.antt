-- ===== src/Client/Window.antt =====
-- `dynamicWeightFromWindow` of backend/internal/hyperliquid/client.go: the extra weight of a request
-- for a time window, in milliseconds.
use Prim.Native.Nat.{min}
use maelstromhub.Prelude.{ℕ, ◌-◌, ◌/◌, ◌≤◌, ◌<◌, ◌≡◌, ltb, leb, if◌then◌else◌, arith}
use maelstromhub.Prelude.Int.{ℤ, pos, ◌≤ℤ◌, leb_ℤ, pos_part}

abbrev pub day : ℕ
day = 86_400_000

-- From a positive start to a later end, both are naturals and `/` truncates as in Go.
pub dynamic_weight_from_window : ℤ → ℤ → ℕ
dynamic_weight_from_window start end =
    let days = (pos_part end - pos_part start) / day in
    if leb_ℤ start (pos 0)
    then 0
    else if leb_ℤ end start
    then 0
    else if leb days 1
    then 0
    else if ltb 30 days
    then 10
    else days / 3

-- From a positive start on, the extra weight is a third of the whole days of the window, at most 10.
pub window_weight :
    (start : ℕ) (end : ℕ)
    → 0 < start
    → dynamic_weight_from_window (pos start) (pos end) ≡ min 10 ((end - start) / day / 3)
unfolding dynamic_weight_from_window
window_weight start end h = ground arith

-- A longer window never weighs less, whether it starts earlier (but after 0) or ends later.
pub window_mono :
    (start start' end end' : ℤ)
    → pos 1 ≤ℤ start'
    → start' ≤ℤ start
    → end ≤ℤ end'
    → dynamic_weight_from_window start end ≤ dynamic_weight_from_window start' end'
unfolding dynamic_weight_from_window
window_mono start start' end end' h k m = ground arith
