-- ===== src/Delivery/Entries.antt =====
-- What adding, removing and passing over a packet does to the entries of the window.
use cpe464_a.Base.{
  ℕ, ◌+◌, ◌%◌, ◌≤◌, ◌<◌, ◌≡◌, ◌≢◌, inl, inr, refl, sym, ◌∙◌, some, arith, get_elem?, ap,
}
use native.Mathlib.Decide.{dec_lt, ℕ_discrete}
use cpe464_a.Window.{Buffer, Window, slot, put_slot}
use cpe464_a.Window.Slots.{IsValid, slot-put_slot_self, slot-put_slot_ne, index_injective}
use cpe464_a.Delivery.{Stream, Stored, IsEntry, Entries}

-- One turn round the window comes back to the same entry.
mod-add_self : (i n : ℕ) → (i + n) % n ≡ i % n
mod-add_self i n = grind arith

pub slot-add_size : (w : Window) (i : ℕ) → slot w (i + w.size) ≡ slot w i
unfolding slot
slot-add_size w i = ap (get_elem? w.window_buffer) (mod-add_self i w.size)

module _ (s : Stream) where
  -- Passing over an entry that is empty.
  pub Entries-advance :
      (w : Window) (e : ℕ) {x y k : ℕ} {b : Buffer}
      → slot w e ≡ some b
      → b.valid ≡ 0
      → Entries s w e x y k
      → Entries s w (e + 1) x y k
  Entries-advance w e {b = b} here empty entries i lo hi = elim (dec_lt i (e + w.size)) [
    | yes old ↦ entries i (omega arith) old
    | no new ↦
        let last : i ≡ e + w.size = omega arith in
        (b, ap (slot w) last ∙ slot-add_size w e ∙ here, inl empty)
  ]

  -- Emptying the expected entry.
  pub Entries-remove :
      {w : Window} {e x y k : ℕ} {b : Buffer}
      → IsValid w
      → slot w e ≡ some b
      → Entries s w e x y k
      → Entries s (put_slot w e (record b { valid = 0 })) e x y k
  unfolding put_slot
  Entries-remove {w} {e} {b = b} v here entries i lo hi = elim (ℕ_discrete i e) [
    | yes same ↦
        (record b { valid = 0 }, slot-put_slot_self v e i _ (ap (λ j. j % w.size) same), inl refl)
    | no other ↦
        let (old, at_i, kept) = entries i lo hi in
        let apart : e % w.size ≢ i % w.size =
          λ q. other (sym (index_injective w.size e i v.positive lo hi q)) in
        (old, slot-put_slot_ne w e i _ apart ∙ at_i, kept)
  ]

  -- What is stored stays stored while the client learns more.
  pub Stored-learn :
      {x y k x' y' k' i : ℕ} {b : Buffer}
      → k ≤ k'
      → (x ≡ s.count + 1 → x' ≡ s.count + 1)
      → (y ≡ s.count → y' ≡ s.count)
      → Stored s x y k i b
      → Stored s x' y' k' i b
  Stored-learn le hx hy st = record {
    marked = st.marked;
    up_to = omega (arith, st.up_to);
    inside = st.inside;
    content = st.content;
    eof_known = λ q. hx (st.eof_known q);
    final_known = λ q ne. hy (st.final_known q ne);
  }

  pub Stored-mono :
      {x y k x' y' k' i : ℕ} {b : Buffer}
      → k ≤ k'
      → (x ≡ s.count + 1 → x' ≡ s.count + 1)
      → (y ≡ s.count → y' ≡ s.count)
      → IsEntry s x y k i b
      → IsEntry s x' y' k' i b
  Stored-mono le hx hy (inl empty) = inl empty
  Stored-mono le hx hy (inr st) = inr (Stored-learn le hx hy st)

  -- Storing packet `j`, ahead of the expected one.
  pub Entries-add :
      {w : Window} {e x y k x' y' k' : ℕ} (j : ℕ) {b : Buffer}
      → IsValid w
      → e ≤ j
      → j < e + w.size
      → k ≤ k'
      → (x ≡ s.count + 1 → x' ≡ s.count + 1)
      → (y ≡ s.count → y' ≡ s.count)
      → Stored s x' y' k' j b
      → Entries s w e x y k
      → Entries s (put_slot w j b) e x' y' k'
  unfolding put_slot
  Entries-add {w} {e} j {b} v lo_j hi_j le hx hy new entries i lo hi = elim (ℕ_discrete i j) [
    | yes same ↦ (b, slot-put_slot_self v j i b (ap (λ n. n % w.size) same), inr (rw same new))
    | no other ↦
        let (old, at_i, kept) = entries i lo hi in
        (old, slot-put_slot_ne w j i b (apart i lo hi other) ∙ at_i, Stored-mono le hx hy kept)
  ]
    where
      apart : (i : ℕ) → e ≤ i → i < e + w.size → i ≢ j → j % w.size ≢ i % w.size
      apart i lo hi other q = elim (dec_lt i j) [
        | yes below ↦
            other (index_injective w.size i j v.positive (omega arith) (omega arith) (sym q))
        | no above ↦
            other (sym (index_injective w.size j i v.positive (omega arith) (omega arith) q))
      ]
