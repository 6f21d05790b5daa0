-- ===== src/Tests/Repair.antt =====
-- The session of Tests/Session with the second packet lost.
use cpe464_a.Base.{ℕ, ◌+◌, ◌<◌, ◌≤◌, ◌≡◌, List, [], ◌∷◌, ◌++◌, arith}
use cpe464_a.Checksum.Internet.{internet_checksum, internet_checksum-IsChecksum}
use cpe464_a.Flag
use cpe464_a.Process.{Action, send, stray, sent, written, goes, after, arrived, timed_out}
use cpe464_a.Rcopy.{Client}
use cpe464_a.Rcopy as Rcopy
use cpe464_a.Rcopy.Run as ClientRun
use cpe464_a.Delivery.{Receives}
use cpe464_a.Delivery.Transfer.{answer}
use cpe464_a.Server.{State, Server}
use cpe464_a.Server.Ack.{wait_on_ack}
use cpe464_a.Server.Cutting.{cut}
use cpe464_a.Service.{Sends}
use cpe464_a.Session.{hears}
use cpe464_a.Session.Packets.{IsAnswer}
use cpe464_a.Session.Serving.{ServerAt-Sends}
use cpe464_a.Session.Joined.{Transferring}
use cpe464_a.Session.Whole.{Run-begun}
use cpe464_a.Repair.{late}
use cpe464_a.Repair.Whole.{process_file-asks_once}
use cpe464_a.Tests.Service.{decimal, five, disk, zeroed, asked, asked-Fits, server_code}
use cpe464_a.Tests.Client.{client_code}
use cpe464_a.Tests.Session.{fifth, asking, client_of, five_rounds, five-IsBytes}

abbrev waiting : Client
waiting = client_of fifth.receiver

-- What holds after five rounds.
known : Transferring internet_checksum 2 five 3 9 waiting fifth
unfolding server_code client_code
known =
    (Run-begun internet_checksum decimal zeroed disk asking asked-Fits 3 9
      internet_checksum-IsChecksum five-IsBytes (omega arith) (omega arith) five_rounds).0

bounds :
    (fifth.server.window.lower ≤ waiting.expected)
    × (waiting.expected + 1 + 0 < fifth.server.seq_num)
    × (1 + 0 < waiting.window.size)
unfolding server_code client_code
bounds = (omega arith, omega arith, omega arith)

process_file-asks_once_example :
    (srej repeated rr : List ℕ) × (sr' : Server) × (c' : Client) × (acts : List Action)
    × (wait_on_ack internet_checksum fifth.server (hears 9 [] srej)
        ≡ goes State.send_data sr' (stray ∷ send repeated ∷ []))
    × Sends internet_checksum 2 five 3 sr'
    × (ClientRun.process_file internet_checksum decimal zeroed asked Rcopy.State.recv_data waiting (
          late internet_checksum 2 five (waiting.expected + 1) ([] ∷ [])
          ++ (answer (arrived [] repeated) ∷ answer timed_out ∷ []))
        ≡ after acts (
            ClientRun.process_file internet_checksum decimal zeroed asked Rcopy.State.recv_data c'
              []))
    × Receives (cut 2 five 3) c' (fifth.disk ++ written acts)
    × (c'.expected ≡ waiting.expected + 2 + 0)
    × (sent acts ≡ srej ∷ rr ∷ [])
    × IsAnswer internet_checksum Flag.rr (waiting.expected + 1 + 0) rr
unfolding decimal
process_file-asks_once_example =
    process_file-asks_once internet_checksum decimal zeroed asked-Fits 9 fifth.server waiting
      fifth.disk [] [] [] [] [] internet_checksum-IsChecksum five-IsBytes (omega arith)
      (ServerAt-Sends internet_checksum 2 five 3 fifth.server_state fifth.server known.acked
        known.serves.at)
      known.serves.no_retry known.receives known.in_word bounds.0 bounds.1 bounds.2
