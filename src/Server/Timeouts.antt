-- ===== src/Server/Timeouts.antt =====
-- A server in WAIT_ON_ACK whose client is gone gives up.
use cpe464_a.Base.{
  Bool, Bool-cases, inl, inr, ◌==◌, ℕ, zero, suc, ◌+◌, ◌≤◌, ◌<◌, ◌≡◌, Option, some, List, [], ◌∷◌,
  length, take, arith, refl, ap, lt→ltb, le→ltb,
}
use cpe464_a.Process.{Action, silent, goes, send, sent, and_then}
use cpe464_a.Flag
use cpe464_a.Pdu.{Received, read_u32}
use cpe464_a.Window.{Buffer, Window, slot, put_slot}
use cpe464_a.Server.{State, Server, Answers}
use cpe464_a.Server.Ack.{wait_on_ack, process_select, ack_selected}
use cpe464_a.Window.Slots.{IsValid, slot-some, put_slot-IsValid}
use cpe464_a.Server.Resend.{set_flag, length_of_sent, refresh, timeout_on_ack}
use cpe464_a.Server.Run.{is_done, step, process_client}
use cpe464_a.Server.Waiting.{Silent}

module _ (in_cksum : List ℕ → ℕ) (calloc : ℕ → ℕ → Bool) (open_file : List ℕ → Option (List ℕ))
    (establishment : Received) where
  -- Rounds of `wait_on_ack` without an answer.
  wait_on_ack-silent :
      (sr : Server) (a : Answers)
      → ((ms : ℕ) → a.poll ms ≡ silent)
      → sr.retry_count < 10
      → wait_on_ack in_cksum sr a
        ≡ goes State.timeout_on_ack (record sr { retry_count = sr.retry_count + 1 }) []
  unfolding wait_on_ack process_select ack_selected
  wait_on_ack-silent sr a quiet lt =
      rw
        (
          quiet _,
          le→ltb 10 (sr.retry_count + 1) (omega arith),
          wait_on_ack,
          process_select,
          ack_selected,
        )
        refl

  wait_on_ack-over :
      (sr : Server) (a : Answers)
      → 10 ≤ sr.retry_count
      → wait_on_ack in_cksum sr a
        ≡ goes State.done (record sr { retry_count = sr.retry_count + 1 }) []
  unfolding wait_on_ack process_select ack_selected
  wait_on_ack-over sr a le =
      rw (lt→ltb 10 (sr.retry_count + 1) (omega arith), wait_on_ack, process_select, ack_selected)
        refl

  -- What `timeout_on_ack` needs of the variables, and keeps.
  pub record Resends (sr : Server) : Type 0 where
    pub window_valid : IsValid sr.window
    pub data_len_le : sr.data_packet_len ≤ 1407
    pub final_len_le : sr.final_packet_len ≤ 1407

  length_of_sent-le : (sr : Server) → Resends sr → (i : ℕ) → length_of_sent sr i ≤ 1407
  unfolding length_of_sent
  length_of_sent-le sr rs i = elim (Bool-cases (i == sr.final_packet_seq)) [
    | inl last ↦ rw last rs.final_len_le
    | inr other ↦ rw other rs.data_len_le
  ]

  refresh_at :
      (flag len i : ℕ) (w : Window) (b : Buffer)
      → slot w i ≡ some b
      → len ≤ 1407
      → let fresh = set_flag in_cksum flag len b.packet in
        refresh in_cksum flag len i w ≡ some (put_slot w i (record b { packet = fresh }), fresh)
  unfolding refresh
  refresh_at flag len i w b here le = rw (here, le→ltb 1407 len le, refresh) refl

  timeout_on_ack-goes :
      (sr : Server)
      → Resends sr
      → (w : Window) × (packet : List ℕ) × (timeout_on_ack in_cksum sr
          ≡ goes State.wait_on_ack (record sr { window = w }) (send packet ∷ []))
        × IsValid w
  unfolding timeout_on_ack
  timeout_on_ack-goes sr rs =
      let (b, here) = slot-some rs.window_valid sr.window.lower in
      let len = length_of_sent sr (read_u32 b.packet 0) in
      let fresh = set_flag in_cksum Flag.data_timeout len b.packet in
      (
        put_slot sr.window sr.window.lower (record b { packet = fresh }),
        take len fresh,
        rw
            (
              here,
              refresh_at Flag.data_timeout len sr.window.lower sr.window b here
                  (length_of_sent-le sr rs (read_u32 b.packet 0)),
              timeout_on_ack,
            )
            refl,
        put_slot-IsValid rs.window_valid sr.window.lower _,
      )

  process_client-ack :
      (sr : Server) (a a' : Answers) (rest : List Answers)
      → process_client in_cksum calloc open_file establishment State.wait_on_ack sr (a ∷ a' ∷ rest)
        ≡ and_then
            (λ st' sr'. process_client in_cksum calloc open_file establishment st' sr' (a' ∷ rest))
            (wait_on_ack in_cksum sr a)
  unfolding process_client is_done step
  process_client-ack sr a a' rest = refl

  process_client-timeout :
      (sr : Server) (a : Answers) (rest : List Answers)
      → process_client in_cksum calloc open_file establishment State.timeout_on_ack sr (a ∷ rest)
        ≡ and_then
            (λ st' sr'. process_client in_cksum calloc open_file establishment st' sr' rest)
            (timeout_on_ack in_cksum sr)
  unfolding process_client is_done step
  process_client-timeout sr a rest = refl

  process_client-done :
      (sr : Server) (answers : List Answers)
      → process_client in_cksum calloc open_file establishment State.done sr answers
        ≡ goes State.done sr []
  unfolding process_client is_done
  process_client-done sr [] = refl
  process_client-done sr (a ∷ rest) = refl

  -- If the window is of its array's size and the packet lengths are at most 1407, retryCount and k
  -- make 10, and no poll finds anything for 2k + 2 rounds or more, then process_client goes from
  -- WAIT_ON_ACK to DONE after sending exactly k datagrams.
  pub wait_on_ack-ends :
      (answers : List Answers) (sr : Server) (k : ℕ)
      → Resends sr
      → sr.retry_count + k ≡ 10
      → Silent answers
      → k + k + 1 < length answers
      → (sr' : Server) × (acts : List Action) × (process_client in_cksum calloc open_file
            establishment State.wait_on_ack sr answers
          ≡ goes State.done sr' acts)
        × (length (sent acts) ≡ k)
  wait_on_ack-ends (a ∷ a' ∷ rest) sr zero rs left quiet enough = (
    record sr { retry_count = sr.retry_count + 1 },
    [],
    rw (process_client-ack, wait_on_ack-over sr a (omega arith), process_client-done) refl,
    refl,
  )
  wait_on_ack-ends (a ∷ a' ∷ rest) sr (suc k) rs left quiet enough =
      let sr₁ = record sr { retry_count = sr.retry_count + 1 } in
      let (w, packet, again, v) = timeout_on_ack-goes sr₁ (record {
        window_valid = rs.window_valid;
        data_len_le = rs.data_len_le;
        final_len_le = rs.final_len_le;
      }) in
      let (sr', acts, runs, count) =
        wait_on_ack-ends rest (record sr₁ { window = w }) k
          (record {
            window_valid = v;
            data_len_le = rs.data_len_le;
            final_len_le = rs.final_len_le;
          })
          (omega arith) quiet.1.1 (omega arith) in
      (
        sr',
        send packet ∷ acts,
        rw
            (
              process_client-ack,
              wait_on_ack-silent sr a quiet.0 (omega arith),
              process_client-timeout,
              again,
              runs,
            )
            refl,
        ap suc count,
      )
  wait_on_ack-ends (a ∷ []) sr k rs left quiet enough = absurd (omega arith)
  wait_on_ack-ends [] sr k rs left quiet enough = absurd (omega arith)
