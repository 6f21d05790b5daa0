-- ===== src/Window/Bounds.antt =====
-- The bounds of the sender's window: how `window_full`, `window_cur_update` and `window_slide` keep
-- the number of packets that are not acknowledged at most the window's size.
use cpe464_a.Base.{
  ℕ, ◌+◌, ◌-◌, ◌≤◌, ◌<◌, ◌≡◌, ◌⊎◌, inl, inr, some, arith, true, false, ◌^◌, eq→==, ne→==, ==→eq,
  Bool,
}
use native.Mathlib.Decide.{ℕ_discrete}
use cpe464_a.Window.{
  Window, window_isvalid, window_create, size_t_of_int, new_window, zero_buffer, window_full,
  window_slide, window_cur_update,
}
use cpe464_a.Window.Slots.{IsValid, new_window-IsValid, slot-new_window, window_isvalid_at}

-- The next number to send is between the first that is not acknowledged and a window after it.
pub record IsBounded (w : Window) : Type 0 where
  pub upper_is : w.upper ≡ w.lower + w.size
  pub in_word : w.lower + w.size < 2 ^ 32
  pub above : w.lower ≤ w.current
  pub below : w.current ≤ w.lower + w.size

-- With memory for a window of n packets, n positive and n + 1 below 2^32, window_create succeeds,
-- no packet is in the window, and the window is of the size of its array, bounded and not full.
pub window_create-IsBounded :
    (calloc : ℕ → ℕ → Bool) (n s : ℕ)
    → 0 < n
    → n + 1 < 2 ^ 32
    → calloc (size_t_of_int n) 1416 ≡ true
    → (w : Window) × (window_create calloc n ≡ some w)
      × IsValid w
      × IsBounded w
      × (window_isvalid w s ≡ some 0)
      × (window_full w ≡ false)
unfolding window_create new_window window_full zero_buffer
window_create-IsBounded calloc n s pos lt found = (
  new_window n,
  rw found,
  new_window-IsValid n pos,
  record {
    upper_is = omega arith;
    in_word = omega arith;
    above = omega arith;
    below = omega arith;
  },
  window_isvalid_at (new_window n) s (slot-new_window n s pos),
  ne→== _ _ (omega arith),
)

module _ {w : Window} (b : IsBounded w) where
  -- A bounded window is full exactly when as many packets are not acknowledged as it has room for,
  -- and if it is not full it is still bounded when one more is sent.
  pub window_cur_update-IsBounded :
      ((window_full w ≡ true) × (w.current - w.lower ≡ w.size))
      ⊎ ((window_full w ≡ false) × (w.current - w.lower < w.size) × IsBounded (window_cur_update w))
  unfolding window_full window_cur_update
  window_cur_update-IsBounded = elim (ℕ_discrete w.current w.upper) [
    | yes full ↦ inl (eq→== _ _ full, omega (arith, b.upper_is, b.above))
    | no room ↦ inr (
      ne→== _ _ room,
      omega (arith, b.upper_is, b.below, b.above),
      record {
        upper_is = b.upper_is;
        in_word = b.in_word;
        above = omega (arith, b.above, b.below, b.in_word, b.upper_is);
        below = omega (arith, b.upper_is, b.below, b.in_word);
      },
    )
  ]

  -- Sliding a bounded window to a number that was sent or is the next to send, with no wrap-round
  -- at its upper end, keeps it bounded, and one that slides up by at least one is then not full.
  pub window_slide-IsBounded :
      (rr : ℕ)
      → w.lower ≤ rr
      → rr ≤ w.current
      → rr + w.size < 2 ^ 32
      → IsBounded (window_slide w rr) × ((rr ≡ w.lower) ⊎ (window_full (window_slide w rr) ≡ false))
  unfolding window_full window_slide
  window_slide-IsBounded rr from to fits = (
    record { upper_is = omega arith; in_word = fits; above = to; below = omega (arith, b.below) },
    elim (ℕ_discrete rr w.lower) [
      | yes same ↦ inl same
      | no other ↦ inr (ne→== _ _ (omega (arith, b.below)))
    ],
  )

  -- Sliding a full bounded window back, to a number below the first that is not acknowledged,
  -- makes it count as not full, though the next number to send is above its upper end.
  pub window_slide-backward :
      (rr : ℕ)
      → window_full w ≡ true
      → rr < w.lower
      → (window_full (window_slide w rr) ≡ false)
        × ((window_slide w rr).upper < (window_slide w rr).current)
  unfolding window_full window_slide
  window_slide-backward rr full lt =
      let at : w.current ≡ w.upper = ==→eq _ _ full in
      (ne→== _ _ (omega (arith, b.upper_is, b.in_word)), omega (arith, b.upper_is, b.in_word))
