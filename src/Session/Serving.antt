-- ===== src/Session/Serving.antt =====
-- The server in a session: what it sends without a datagram.
use cpe464_a.Base.{
  ℕ, ◌+◌, ◌≤◌, ◌<◌, ◌≡◌, ◌⊎◌, inl, inr, Bool-cases, true, false, List, [], ◌∷◌, arith, ap, refl,
  sym, ◌∙◌,
}
use native.Mathlib.Decide.{dec_lt}
use cpe464_a.Flag
use cpe464_a.Process.{Action, sent, goes, send}
use cpe464_a.Pdu.{create_pdu}
use cpe464_a.Window.{put_slot, window_full, window_cur_update}
use cpe464_a.Window.Slots.{slot-some}
use cpe464_a.Server.{State, Server}
use cpe464_a.Server.Send.{send_data}
use cpe464_a.Server.Sending.{part, sent_on}
use cpe464_a.Server.Ending.{eof_on, send_data-eof_on}
use cpe464_a.Server.Cutting.{cut}
use cpe464_a.Delivery.Transfer.{stream_packet, stream_packet_past, stream_packet_within}
use cpe464_a.Service.{Fills, Open, Closed, Sends, Waits}
use cpe464_a.Service.Sending.{Open-Reads, Sends-data, Sends-eof}
use cpe464_a.Service.Reading.{send_data-data, send_data-Closed, at_end}
use cpe464_a.Session.{reads}
use cpe464_a.Session.Packets.{stretch}

module _ (in_cksum : List ℕ → ℕ) (n : ℕ) (file : List ℕ) (count : ℕ) where
  -- The state of the server, while it has not finished, when the last RR that it took was `acked`.
  abbrev pub ServerAt : State → Server → ℕ → Type 0
  ServerAt State.send_data sr acked = Sends in_cksum n file count sr × (sr.window.lower ≡ acked)
  ServerAt State.wait_on_ack sr acked = Waits in_cksum n file count sr × (sr.window.lower ≡ acked)
  ServerAt State.wait_on_eof_ack sr acked =
      Sends in_cksum n file count sr × Closed in_cksum n file count sr × (acked ≡ count + 1)
  ServerAt State.start sr acked = ⊥
  ServerAt State.filename sr acked = ⊥
  ServerAt State.done sr acked = ⊥
  ServerAt State.timeout_on_ack sr acked = ⊥
  ServerAt State.timeout_on_eof_ack sr acked = ⊥

  -- What holds in each of them.
  pub record Serves (st : State) (sr : Server) (acked : ℕ) : Type 0 where
    pub at : ServerAt st sr acked
    pub two : 2 ≤ sr.window.size
    pub no_retry : sr.retry_count ≡ 0
    pub no_eof_retry : sr.eof_retry_count ≡ 0

  pub ServerAt-Sends :
      (st : State) (sr : Server) (acked : ℕ) → ServerAt st sr acked → Sends in_cksum n file count sr
  ServerAt-Sends State.send_data sr acked at = at.0
  ServerAt-Sends State.wait_on_ack sr acked at = at.0.sends
  ServerAt-Sends State.wait_on_eof_ack sr acked at = at.0
  ServerAt-Sends State.start sr acked at = absurd at
  ServerAt-Sends State.filename sr acked at = absurd at
  ServerAt-Sends State.done sr acked at = absurd at
  ServerAt-Sends State.timeout_on_ack sr acked at = absurd at
  ServerAt-Sends State.timeout_on_eof_ack sr acked at = absurd at

  ServerAt-lower :
      (st : State) (sr : Server) (acked : ℕ) → ServerAt st sr acked → sr.window.lower ≤ acked
  ServerAt-lower State.send_data sr acked at = omega (arith, at.1)
  ServerAt-lower State.wait_on_ack sr acked at = omega (arith, at.1)
  ServerAt-lower State.wait_on_eof_ack sr acked at = omega (arith, at.0.lower_le, at.1.seq_is, at.2)
  ServerAt-lower State.start sr acked at = absurd at
  ServerAt-lower State.filename sr acked at = absurd at
  ServerAt-lower State.done sr acked at = absurd at
  ServerAt-lower State.timeout_on_ack sr acked at = absurd at
  ServerAt-lower State.timeout_on_eof_ack sr acked at = absurd at

  module _ (byte : ℕ) where
    -- A round that took `acked` to `acked'` and sent the next `new` packets.
    pub record Moved (sr : Server) (acked' : ℕ) (st' : State) (sr' : Server) (acts : List Action)
        : Type 0 where
      pub serves : Serves st' sr' acked'
      pub new : ℕ
      pub current_is : sr'.window.current ≡ sr.window.current + new
      pub sent_is : sent acts ≡ stretch in_cksum n file count byte sr.window.current new
      pub still_closed : Closed in_cksum n file count sr → Closed in_cksum n file count sr'

-- The window starts no later than at the last RR that the server took.
pub Serves-lower :
    (in_cksum : List ℕ → ℕ) {n : ℕ} {file : List ℕ} {count : ℕ} {st : State} {sr : Server}
    {acked : ℕ}
    → Serves in_cksum n file count st sr acked
    → sr.window.lower ≤ acked
Serves-lower in_cksum {n} {file} {count} {st} {sr} {acked} serves =
    ServerAt-lower in_cksum n file count st sr acked serves.at

module _ (in_cksum : List ℕ → ℕ) {n : ℕ} {file : List ℕ} {count : ℕ} (fl : Fills n file count)
    (byte : ℕ) {sr : Server} {acked : ℕ}
    (serves : Serves in_cksum n file count State.send_data sr acked) where
  -- A round of SEND_DATA that goes to `st'`, having sent `new` packets.
  abbrev SendsOn : Type 0
  SendsOn =
      (st' : State) × (sr' : Server) × (acts : List Action) × (send_data in_cksum sr (reads byte)
        ≡ goes st' sr' acts)
      × (m : Moved in_cksum n file count byte sr acked st' sr' acts) × (((st' ≡ State.wait_on_ack))
          ⊎ ((st' ≡ State.send_data) × (m.new ≡ 1)))

  send_data-waits :
      (window_full sr.window ≡ true) ⊎ Closed in_cksum n file count sr
      → send_data in_cksum sr (reads byte) ≡ goes State.wait_on_ack sr []
      → SendsOn
  send_data-waits shut runs = (
    State.wait_on_ack,
    sr,
    [],
    runs,
    record {
      serves = record {
        at = (
          record {
            sends = serves.at.0;
            shut = elim shut [ inl full ↦ inl full | inr closed ↦ inr closed.is_finished ];
          },
          serves.at.1,
        );
        two = serves.two;
        no_retry = serves.no_retry;
        no_eof_retry = serves.no_eof_retry;
      };
      new = 0;
      current_is = omega arith;
      sent_is = refl;
      still_closed = λ closed. closed;
    },
    inl refl,
  )

  -- The packet of `seq_num` is that of `current`.
  first_is :
      {packet : List ℕ}
      → stream_packet in_cksum (cut n file count) (byte ∷ []) sr.seq_num ≡ packet
      → Open in_cksum n file count sr
      → packet ∷ [] ≡ stretch in_cksum n file count byte sr.window.current 1
  first_is is open_now =
      ap (λ d. d ∷ [])
        (sym is
          ∙ ap (stream_packet in_cksum (cut n file count) (byte ∷ [])) (sym open_now.current_is))

  send_data-next :
      Open in_cksum n file count sr → window_full sr.window ≡ false → sr.seq_num ≤ count → SendsOn
  unfolding window_cur_update put_slot
  send_data-next open_now room to =
      let (b, here) = slot-some serves.at.0.window_valid sr.seq_num in
      let packet = create_pdu in_cksum sr.seq_num Flag.data_flag (part n file sr.seq_num) in
      let (final_len, final_seq, runs, noted) =
        send_data-data in_cksum fl serves.at.0 (reads byte) open_now room refl to b here in
      (
        State.send_data,
        sent_on sr b packet final_len final_seq,
        send packet ∷ [],
        runs,
        record {
          serves = record {
            at = (
              Sends-data in_cksum fl serves.at.0 open_now room to b final_len final_seq noted,
              serves.at.1,
            );
            two = serves.two;
            no_retry = serves.no_retry;
            no_eof_retry = serves.no_eof_retry;
          };
          new = 1;
          current_is =
              omega (arith, open_now.current_is, serves.at.0.in_word, serves.at.0.to_count);
          sent_is =
              first_is
                (stream_packet_within in_cksum (cut n file count) (byte ∷ []) sr.seq_num
                  (omega arith))
                open_now;
          still_closed = λ closed. absurd (omega (arith, closed.is_finished, open_now.unfinished));
        },
        inr (refl, refl),
      )

  send_data-last :
      Open in_cksum n file count sr → window_full sr.window ≡ false → count < sr.seq_num → SendsOn
  unfolding window_cur_update put_slot
  send_data-last open_now room past =
      let (b, here) = slot-some serves.at.0.window_valid sr.seq_num in
      let packet = create_pdu in_cksum sr.seq_num Flag.end_of_file (byte ∷ []) in
      (
        State.wait_on_ack,
        eof_on sr b packet,
        send packet ∷ [],
        send_data-eof_on in_cksum (Open-Reads in_cksum fl serves.at.0 open_now) (reads byte) room
            refl (at_end in_cksum fl serves.at.0 (reads byte) past) open_now.unfinished b here,
        record {
          serves = record {
            at = (
              record {
                sends = Sends-eof in_cksum fl serves.at.0 open_now room past b byte;
                shut = inr refl;
              },
              serves.at.1,
            );
            two = serves.two;
            no_retry = serves.no_retry;
            no_eof_retry = serves.no_eof_retry;
          };
          new = 1;
          current_is =
              omega (arith, open_now.current_is, serves.at.0.in_word, serves.at.0.to_count);
          sent_is =
              first_is (stream_packet_past in_cksum (cut n file count) (byte ∷ []) sr.seq_num past)
                open_now;
          still_closed = λ closed. absurd (omega (arith, closed.is_finished, open_now.unfinished));
        },
        inl refl,
      )

  pub send_data-moves : SendsOn
  unfolding send_data
  send_data-moves = elim (Bool-cases (window_full sr.window)) [
    | inl full ↦ send_data-waits (inl full) (rw full refl)
    | inr room ↦ elim serves.at.0.phase [
      | inr closed ↦
          send_data-waits (inr closed)
            (send_data-Closed in_cksum fl serves.at.0 (reads byte) closed room refl)
      | inl open_now ↦ elim (dec_lt count sr.seq_num) [
        | yes past ↦ send_data-last open_now room past
        | no within ↦ send_data-next open_now room (omega arith)
      ]
    ]
  ]
