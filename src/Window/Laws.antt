-- ===== src/Window/Laws.antt =====
-- What window.c promises its callers: an array of packets under their sequence numbers, as long as
-- these lie less than a window apart.
use cpe464_a.Base.{
  ℕ, ◌+◌, ◌%◌, ◌≤◌, ◌<◌, ◌≡◌, ◌≢◌, ◌⊎◌, inl, inr, some, List, length, arith, ◌∙◌, ap, ◌++◌, sym,
}
use native.Mathlib.Decide.{dec_lt, ℕ_discrete}
use cpe464_a.Checksum.{max_pdu_buf}
use cpe464_a.Window.{
  Window, slot, window_isvalid, window_get_packet, window_add, window_remove, put_slot, overwrite,
}
use cpe464_a.Window.Slots.{
  IsValid, slot-some, put_slot-IsValid, slot-put_slot_self, slot-put_slot_ne, window_isvalid_at,
  window_get_packet_at, added, window_add_at, window_remove_at, index_injective,
}

pub near_index : (n i j : ℕ) → 0 < n → i < j + n → j < i + n → i ≢ j → i % n ≢ j % n
near_index n i j pos le ge ne e = elim (dec_lt i j) [
  | yes lt ↦ ne (index_injective n i j pos (omega arith) ge e)
  | no not_lt ↦ ne (sym (index_injective n j i pos (omega arith) le (sym e)))
]

-- Number `j` has the same entry in both windows.
abbrev pub SameAt : ℕ → Window → Window → Type 0
SameAt j w w' =
    (window_isvalid w' j ≡ window_isvalid w j) × (window_get_packet w' j ≡ window_get_packet w j)

pub SameAt-slot : (j : ℕ) (w w' : Window) → slot w' j ≡ slot w j → SameAt j w w'
unfolding window_isvalid window_get_packet
SameAt-slot j w w' e = (rw (e, window_isvalid), rw (e, window_get_packet))

module _ {w : Window} (v : IsValid w) where
  -- In a window of the size of its array, and for a packet that an entry holds, window_add
  -- succeeds and keeps the window so. For a number j less than a window away from the packet's,
  -- either j is the packet's number, and it is then valid and has the packet at the start of its
  -- entry, or j has the entry that it had.
  pub window_add-packets :
      (s j : ℕ) (packet : List ℕ)
      → length packet ≤ max_pdu_buf
      → s < j + w.size
      → j < s + w.size
      → (w' : Window) × (window_add w s packet ≡ some w')
        × IsValid w'
        × (((s ≡ j)
              × (window_isvalid w' j ≡ some 1)
              × (rest : List ℕ) × (window_get_packet w' j ≡ some (packet ++ rest)))
            ⊎ ((s ≢ j) × SameAt j w w'))
  unfolding overwrite
  window_add-packets s j packet fits le ge =
      let (b, here) = slot-some v s in
      (
        put_slot w s (added s packet b),
        window_add_at w s packet here fits,
        put_slot-IsValid v s _,
        elim (ℕ_discrete s j) [
          | yes same ↦
              let at : slot (put_slot w s (added s packet b)) j ≡ some (added s packet b) =
                slot-put_slot_self v s j _ (ap (λ i. i % w.size) (sym same)) in
              inl (same, window_isvalid_at _ j at, _, window_get_packet_at _ j at)
          | no other ↦ inr (
            other,
            SameAt-slot j w _
                (slot-put_slot_ne w s j _ (near_index w.size s j v.positive le ge other)),
          )
        ],
      )

  -- In a window of the size of its array, window_remove succeeds and keeps the window so. For a
  -- number j less than a window away from the removed one, either j is the removed number, and it
  -- is then not valid with its packet still there, or j has the entry that it had.
  pub window_remove-packets :
      (s j : ℕ)
      → s < j + w.size
      → j < s + w.size
      → (w' : Window) × (window_remove w s ≡ some w')
        × IsValid w'
        × (((s ≡ j)
              × (window_isvalid w' j ≡ some 0)
              × (window_get_packet w' j ≡ window_get_packet w j))
            ⊎ ((s ≢ j) × SameAt j w w'))
  window_remove-packets s j le ge =
      let (b, here) = slot-some v s in
      (
        put_slot w s (record b { valid = 0 }),
        window_remove_at w s here,
        put_slot-IsValid v s _,
        elim (ℕ_discrete s j) [
          | yes same ↦
              let at : slot (put_slot w s (record b { valid = 0 })) j
                  ≡ some (record b { valid = 0 }) =
                slot-put_slot_self v s j _ (ap (λ i. i % w.size) (sym same)) in
              inl (
                same,
                window_isvalid_at _ j at,
                window_get_packet_at _ j at
                    ∙ sym (window_get_packet_at w j (ap (slot w) (sym same) ∙ here)),
              )
          | no other ↦ inr (
            other,
            SameAt-slot j w _
                (slot-put_slot_ne w s j _ (near_index w.size s j v.positive le ge other)),
          )
        ],
      )
