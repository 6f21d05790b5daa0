-- ===== src/Tests/Handlers.antt =====
-- The client's handlers, each on a packet that it may get.
use cpe464_a.Base.{inl, inr, refl, [], ◌∷◌, arith}
use cpe464_a.Checksum.Internet.{internet_checksum}
use cpe464_a.Flag
use cpe464_a.Process.{goes}
use cpe464_a.Rcopy.{Client, Result, initial_client}
use cpe464_a.Rcopy.Receive.{recv_data_packet, buffer_packet}
use cpe464_a.Rcopy.Flush.{flush}
use cpe464_a.Delivery.{Buffers, Flushes, IsData}
use cpe464_a.Delivery.Receiving.{recv_data_packet-Promised}
use cpe464_a.Delivery.Buffering.{buffer_packet-Promised}
use cpe464_a.Delivery.Outcomes.{
  RecvTreats, BufferTreats, recv_data_packet-RecvTreats, buffer_packet-BufferTreats,
}
use cpe464_a.Delivery.Flushing.{Flushed, flush-Flushed}
use cpe464_a.Tests.Client.{
  small, small-IsStream, ready_client, ready-Receives, received, client_code, first-IsData,
}

abbrev client_of : Result → Client
client_of (goes st c acts) = c
client_of _ = initial_client

ahead-IsData : IsData small 1 (received 2 Flag.data_flag (4 ∷ []))
unfolding client_code
ahead-IsData = record {
  from_one = omega arith;
  to_count = omega arith;
  data_len = refl;
  payload = refl;
  not_eof = λ q. absurd (omega arith);
  retransmitted = λ q. absurd (q refl);
}

-- Packet 2 overtakes packet 1.
recv_data_packet-RecvTreats_example :
    RecvTreats internet_checksum small [] ready_client (received 2 Flag.data_flag (4 ∷ []))
unfolding client_code
recv_data_packet-RecvTreats_example =
    recv_data_packet-RecvTreats internet_checksum small-IsStream _ ready-Receives
      (inr (inl ahead-IsData, omega arith))

abbrev holding : Client
holding =
    client_of (recv_data_packet internet_checksum ready_client (received 2 Flag.data_flag (4 ∷ [])))

holding-Buffers : Buffers small holding []
unfolding client_code
holding-Buffers =
    recv_data_packet-Promised internet_checksum small-IsStream _ ready-Receives
      (inr (inl ahead-IsData, omega arith))

-- Packet 1 arrives at last.
buffer_packet-BufferTreats_example :
    BufferTreats internet_checksum small [] holding (received 1 Flag.data_flag (1 ∷ 2 ∷ 3 ∷ []))
unfolding client_code
buffer_packet-BufferTreats_example =
    buffer_packet-BufferTreats internet_checksum small-IsStream _ holding-Buffers
      (inr (inl first-IsData, omega arith, inl refl))

abbrev filled : Client
filled =
    client_of (buffer_packet internet_checksum holding (received 1 Flag.data_flag (1 ∷ 2 ∷ 3 ∷ [])))

filled-Flushes : Flushes small filled (1 ∷ 2 ∷ 3 ∷ [])
unfolding client_code
filled-Flushes =
    buffer_packet-Promised internet_checksum small-IsStream _ holding-Buffers
      (inr (inl first-IsData, omega arith, inl refl))

-- Packet 2 is written from the window.
flush-Flushed_example : Flushed small 2 (1 ∷ 2 ∷ 3 ∷ []) (flush internet_checksum filled)
unfolding client_code
flush-Flushed_example = flush-Flushed internet_checksum small-IsStream filled filled-Flushes
