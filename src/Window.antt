-- ===== src/Window.antt =====
-- window.c: the buffer of packets that the server may have to resend and that the client keeps out
-- of order, a packet at the index of its sequence number modulo the size.
pub mod Slots
pub mod Laws
pub mod Bounds
use cpe464_a.Base.{
  ℕ, ◌+◌, ◌-◌, ◌%◌, ◌^◌, Bool, Option, none, some, List, ◌++◌, length, get_elem?, set, drop,
  replicate, u32, ltb, ◌==◌, if◌then◌else◌,
}
use cpe464_a.Checksum.{max_pdu_buf}

-- `struct buffer`; the int fields by their bit patterns.
pub record Buffer : Type 0 where
  pub seq_num : ℕ
  pub valid : ℕ
  pub packet : List ℕ

-- `struct window`; `size` by its bit pattern.
pub record Window : Type 0 where
  pub upper : ℕ
  pub current : ℕ
  pub lower : ℕ
  pub size : ℕ
  pub window_buffer : List Buffer

-- `window_buffer[seq_num % size]`. `none` is an access out of bounds, and the remainder by 0.
unfoldable pub slot : Window → ℕ → Option Buffer
slot w seq_num = get_elem? w.window_buffer (seq_num % w.size)

unfoldable pub window_isvalid : Window → ℕ → Option ℕ
unfolding slot
window_isvalid w seq_num = elim (slot w seq_num) [ none ↦ none | some b ↦ some b.valid ]

unfoldable pub window_get_packet : Window → ℕ → Option (List ℕ)
unfolding slot
window_get_packet w seq_num = elim (slot w seq_num) [ none ↦ none | some b ↦ some b.packet ]

unfoldable pub window_get_lower : Window → Option (List ℕ)
unfolding window_get_packet
window_get_lower w = window_get_packet w w.lower

unfoldable pub window_full : Window → Bool
window_full w = w.current == w.upper

-- What calloc fills the array with.
unfoldable pub zero_buffer : Buffer
zero_buffer = record { seq_num = 0; valid = 0; packet = replicate max_pdu_buf 0 }

-- The size_t that a negative or positive int is converted to.
unfoldable pub size_t_of_int : ℕ → ℕ
size_t_of_int n = if ltb n (2 ^ 31) then n else n + 2 ^ 64 - 2 ^ 32

-- The fields that `window_create` sets, once it has the array.
unfoldable pub new_window : ℕ → Window
new_window window_size = record {
  upper = u32 (1 + window_size);
  current = 1;
  lower = 1;
  size = window_size;
  window_buffer = replicate window_size zero_buffer;
}

-- `calloc count size` says whether calloc finds the memory; `none` is the exit(1) if it does not.
unfoldable pub window_create : (calloc : ℕ → ℕ → Bool) → ℕ → Option Window
unfolding size_t_of_int
window_create calloc window_size =
    if calloc (size_t_of_int window_size) 1416 then some (new_window window_size) else none

unfoldable pub window_slide : Window → ℕ → Window
window_slide w rr_num = record w { lower = rr_num; upper = u32 (rr_num + w.size) }

unfoldable pub window_cur_update : Window → Window
window_cur_update w = record w { current = u32 (w.current + 1) }

-- Writes one entry of the array.
unfoldable pub put_slot : Window → ℕ → Buffer → Window
put_slot w seq_num b = record w { window_buffer = set w.window_buffer (seq_num % w.size) b }

-- memcpy over the first bytes of a packet array.
unfoldable pub overwrite : List ℕ → List ℕ → List ℕ
overwrite old bytes = bytes ++ drop (length bytes) old

-- `none` is a fault: no such entry, or more bytes than a packet array holds.
unfoldable pub window_add : Window → ℕ → List ℕ → Option Window
unfolding slot put_slot overwrite
window_add w seq_num packet = elim (slot w seq_num) [
  | none ↦ none
  | some b ↦
      if ltb max_pdu_buf (length packet)
      then none
      else some (
          put_slot w seq_num
            (record { seq_num = seq_num; valid = 1; packet = overwrite b.packet packet }))
]

unfoldable pub window_remove : Window → ℕ → Option Window
unfolding slot put_slot
window_remove w seq_num = elim (slot w seq_num) [
  | none ↦ none
  | some b ↦ some (put_slot w seq_num (record b { valid = 0 }))
]
