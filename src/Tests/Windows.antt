-- ===== src/Tests/Windows.antt =====
-- The window and its laws on small inputs.
use cpe464_a.Base.{ℕ, ◌-◌, ◌<◌, ◌≡◌, ◌≢◌, ◌⊎◌, some, refl, List, [], ◌∷◌, true, false, Bool, arith}
use cpe464_a.Window.{
  Window, window_isvalid, window_get_packet, window_create, new_window, window_full, window_slide,
  window_cur_update, window_add, window_remove,
}
use cpe464_a.Window.Slots.{IsValid, new_window-IsValid}
use cpe464_a.Window.Laws.{SameAt, window_add-packets, window_remove-packets}
use cpe464_a.Window.Bounds.{
  IsBounded, window_create-IsBounded, window_cur_update-IsBounded, window_slide-IsBounded,
  window_slide-backward,
}

abbrev enough : ℕ → ℕ → Bool
enough count size = true

abbrev last : ℕ
last = 7

-- Numbers 5 to 7 are in flight.
abbrev busy : Window
busy = record (new_window 3) { lower = 5; current = 8; upper = 8 }

busy-IsBounded : IsBounded busy
unfolding new_window
busy-IsBounded = record {
  upper_is = refl;
  in_word = omega arith;
  above = omega arith;
  below = omega arith;
}

window_add-packets_example :
    (w' : Window) × (window_add (new_window 3) 7 (1 ∷ 2 ∷ []) ≡ some w')
    × IsValid w'
    × (((last ≡ 5)
          × (window_isvalid w' 5 ≡ some 1)
          × (rest : List ℕ) × (window_get_packet w' 5 ≡ some (1 ∷ 2 ∷ rest)))
        ⊎ ((last ≢ 5) × SameAt 5 (new_window 3) w'))
unfolding new_window
window_add-packets_example =
    window_add-packets (new_window-IsValid 3 (omega arith)) 7 5 (1 ∷ 2 ∷ []) (omega arith)
      (omega arith) (omega arith)

window_remove-packets_example :
    (w' : Window) × (window_remove (new_window 3) 7 ≡ some w')
    × IsValid w'
    × (((last ≡ 6)
          × (window_isvalid w' 6 ≡ some 0)
          × (window_get_packet w' 6 ≡ window_get_packet (new_window 3) 6))
        ⊎ ((last ≢ 6) × SameAt 6 (new_window 3) w'))
unfolding new_window
window_remove-packets_example =
    window_remove-packets (new_window-IsValid 3 (omega arith)) 7 6 (omega arith) (omega arith)

window_create-IsBounded_example :
    (w : Window) × (window_create enough 3 ≡ some w)
    × IsValid w
    × IsBounded w
    × (window_isvalid w 7 ≡ some 0)
    × (window_full w ≡ false)
window_create-IsBounded_example =
    window_create-IsBounded enough 3 7 (omega arith) (omega arith) refl

window_cur_update-IsBounded_example :
    ((window_full busy ≡ true) × (busy.current - busy.lower ≡ busy.size))
    ⊎ ((window_full busy ≡ false)
        × (busy.current - busy.lower < busy.size)
        × IsBounded (window_cur_update busy))
window_cur_update-IsBounded_example = window_cur_update-IsBounded busy-IsBounded

window_slide-IsBounded_example :
    IsBounded (window_slide busy 7) × ((last ≡ 5) ⊎ (window_full (window_slide busy 7) ≡ false))
unfolding new_window
window_slide-IsBounded_example =
    window_slide-IsBounded busy-IsBounded 7 (omega arith) (omega arith) (omega arith)

window_slide-backward_example :
    (window_full (window_slide busy 4) ≡ false)
    × ((window_slide busy 4).upper < (window_slide busy 4).current)
unfolding window_full
window_slide-backward_example = window_slide-backward busy-IsBounded 4 refl (omega arith)
