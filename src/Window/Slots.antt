-- ===== src/Window/Slots.antt =====
-- The array behind a window: what each operation of window.c does to each entry.
use cpe464_a.Base.{
  ℕ, ◌+◌, ◌%◌, ◌≤◌, ◌<◌, ◌≡◌, ◌≢◌, some, List, length, get_elem?_lt, get_elem?-set_self,
  get_elem?-set_ne, get_elem?-replicate, length-set, length-replicate, arith, ◌∙◌,
}
use cpe464_a.Checksum.{max_pdu_buf}
use cpe464_a.Window.{
  Buffer, Window, slot, window_isvalid, window_get_packet, new_window, window_add, window_remove,
  put_slot, overwrite, zero_buffer,
}

-- The array has `size` entries, and there is one.
pub record IsValid (w : Window) : Type 0 where
  pub sized : length w.window_buffer ≡ w.size
  pub positive : 0 < w.size

module _ {w : Window} (v : IsValid w) where
  index_lt : (s : ℕ) → s % w.size < length w.window_buffer
  index_lt s = omega (arith, v.sized, v.positive)

  pub slot-some : (s : ℕ) → (b : Buffer) × (slot w s ≡ some b)
  unfolding slot
  slot-some s = get_elem?_lt w.window_buffer (s % w.size) (index_lt s)

  pub put_slot-IsValid : (s : ℕ) (b : Buffer) → IsValid (put_slot w s b)
  unfolding put_slot
  put_slot-IsValid s b = record {
    sized = length-set w.window_buffer (s % w.size) b ∙ v.sized;
    positive = v.positive;
  }

  pub slot-put_slot_self :
      (s j : ℕ) (b : Buffer) → j % w.size ≡ s % w.size → slot (put_slot w s b) j ≡ some b
  unfolding slot put_slot
  slot-put_slot_self s j b e = rw e (get_elem?-set_self w.window_buffer (s % w.size) b (index_lt s))

pub slot-put_slot_ne :
    (w : Window) (s j : ℕ) (b : Buffer)
    → s % w.size ≢ j % w.size
    → slot (put_slot w s b) j ≡ slot w j
unfolding slot put_slot
slot-put_slot_ne w s j b ne = get_elem?-set_ne w.window_buffer (s % w.size) (j % w.size) b ne

pub window_isvalid_at :
    (w : Window) (s : ℕ) {b : Buffer} → slot w s ≡ some b → window_isvalid w s ≡ some b.valid
unfolding window_isvalid
window_isvalid_at w s h = rw (h, window_isvalid)

pub window_get_packet_at :
    (w : Window) (s : ℕ) {b : Buffer} → slot w s ≡ some b → window_get_packet w s ≡ some b.packet
unfolding window_get_packet
window_get_packet_at w s h = rw (h, window_get_packet)

-- The entry that `window_add` writes.
abbrev pub added : ℕ → List ℕ → Buffer → Buffer
added s packet b = record { seq_num = s; valid = 1; packet = overwrite b.packet packet }

pub window_add_at :
    (w : Window) (s : ℕ) (packet : List ℕ) {b : Buffer}
    → slot w s ≡ some b
    → length packet ≤ max_pdu_buf
    → window_add w s packet ≡ some (put_slot w s (added s packet b))
unfolding window_add
window_add_at w s packet h l = rw (h, window_add) (ground arith)

pub window_remove_at :
    (w : Window) (s : ℕ) {b : Buffer}
    → slot w s ≡ some b
    → window_remove w s ≡ some (put_slot w s (record b { valid = 0 }))
unfolding window_remove
window_remove_at w s h = rw (h, window_remove)

-- Two sequence numbers less than a window apart have different indices.
pub index_injective : (n i j : ℕ) → 0 < n → i ≤ j → j < i + n → i % n ≡ j % n → i ≡ j
index_injective n i j pos le near e = grind arith

-- A window that `window_create` made has its entries.
pub new_window-IsValid : (n : ℕ) → 0 < n → IsValid (new_window n)
unfolding new_window
new_window-IsValid n pos = record { sized = length-replicate n zero_buffer; positive = pos }

-- Each of them is empty.
pub slot-new_window : (n s : ℕ) → 0 < n → slot (new_window n) s ≡ some zero_buffer
unfolding new_window slot
slot-new_window n s pos = get_elem?-replicate n (s % n) zero_buffer (omega arith)
