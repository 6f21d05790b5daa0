-- ===== src/Tests/Session.antt =====
-- A session, on a file of five bytes, two at a time, through a window of four.
use cpe464_a.Base.{ℕ, ◌+◌, ◌-◌, ◌≤◌, length, ◌≡◌, refl, List, [], ◌∷◌, arith}
use cpe464_a.Checksum.{IsBytes}
use cpe464_a.Checksum.Internet.{internet_checksum, internet_checksum-IsChecksum}
use cpe464_a.Pdu.{Received}
use cpe464_a.Process.{arrived}
use cpe464_a.Rcopy.{Client, initial_client}
use cpe464_a.Rcopy as Rcopy
use cpe464_a.Delivery.{delivered}
use cpe464_a.Server.Cutting.{cut}
use cpe464_a.Rcopy.Run as ClientRun
use cpe464_a.Delivery.Transfer.{answer}
use cpe464_a.Server.Run.{step}
use cpe464_a.Service.Request.{establishment}
use cpe464_a.Session.{
  Session, System, live, failed, Receiver, running, ended, Run, here, there, server_moves,
  server_hears, client_hears, after_server, after_client, reads, hears, server_polls, client_polls,
}
use cpe464_a.Session.Bytes.{ArePackets, Run-ArePackets}
use cpe464_a.Session.Whole.{begun, IsGoing, Run-IsGoing, Run-agree}
use cpe464_a.Tests.Service.{decimal, five, disk, zeroed, asked, asked-Fits, server_code}
use cpe464_a.Tests.Client.{client_code}

abbrev pub asking : Received
asking = establishment internet_checksum decimal asked []

abbrev pub Runs : ℕ → System → Type 0
Runs = Run internet_checksum decimal zeroed asked disk asking 9 (live (begun decimal asked 3 five))

-- The session of a system that has not failed.
abbrev pub the : System → Session
the (live s) = s
the failed = begun decimal asked 3 five

-- A round of the server, or of the client with the next datagram.
abbrev pub moved : Session → System
moved s =
    after_server s s.to_server
      (step internet_checksum zeroed disk asking s.server_state s.server (reads 9))

abbrev pub heard : List (List ℕ) → Session → System
heard [] s = failed
heard (datagram ∷ rest) s =
    after_server s rest
      (step internet_checksum zeroed disk asking s.server_state s.server (hears 9 [] datagram))

abbrev pub taken : Receiver → List (List ℕ) → Session → System
taken (running st c) (datagram ∷ rest) s =
    after_client s rest
      (ClientRun.step internet_checksum decimal zeroed asked st c (answer (arrived [] datagram)))
taken receiver queue s = failed

-- The server sends the first packet, the client takes it, and the server sends the rest and EOF.
abbrev pub first : Session
first = the (moved (begun decimal asked 3 five))

abbrev pub second : Session
second = the (taken first.receiver first.to_client first)

abbrev pub third : Session
third = the (moved second)

abbrev pub fourth : Session
fourth = the (moved third)

abbrev pub fifth : Session
fifth = the (moved fourth)

-- Then it takes the RR.
abbrev sixth : System
sixth = heard fifth.to_server fifth

first_rounds : Runs 2 (live second)
unfolding server_code server_polls client_polls client_code
first_rounds = there (there here (server_moves refl refl)) (client_hears _ _ [] _ _ refl refl refl)

pub five_rounds : Runs 5 (live fifth)
unfolding server_code server_polls client_polls client_code
five_rounds =
    there (there (there first_rounds (server_moves refl refl)) (server_moves refl refl))
      (server_moves refl refl)

six_rounds : Runs 6 sixth
unfolding server_code server_polls client_polls client_code
six_rounds = there five_rounds (server_hears [] _ _ refl refl)

pub five-IsBytes : IsBytes five
five-IsBytes = (omega arith, (omega arith, (omega arith, (omega arith, (omega arith, tt)))))

Run-IsGoing_example :
    (6 ≤ 58) × IsGoing internet_checksum decimal zeroed asked disk asking 9 five sixth
unfolding decimal
Run-IsGoing_example =
    Run-IsGoing internet_checksum decimal zeroed disk asking asked-Fits 3 9
      internet_checksum-IsChecksum five-IsBytes (omega arith) (omega arith) six_rounds

abbrev pub client_of : Receiver → Client
client_of (running st c) = c
client_of (ended code) = initial_client

Run-agree_example :
    let c = client_of fifth.receiver in
    (Rcopy.State.recv_data ≡ Rcopy.State.recv_data)
    × (fifth.server.window.lower ≤ c.expected)
    × (c.expected ≤ fifth.server.window.current)
    × (fifth.server.window.current ≤ fifth.server.window.lower + fifth.server.window.size)
    × (length fifth.to_client ≤ fifth.server.window.size)
    × (fifth.disk ≡ delivered (cut 2 five 3) (c.expected - 1))
unfolding server_code client_code
Run-agree_example =
    Run-agree internet_checksum decimal zeroed disk asking asked-Fits 3 9
      internet_checksum-IsChecksum five-IsBytes (omega arith) (omega arith) five_rounds
      Rcopy.State.recv_data (client_of fifth.receiver) refl

Run-ArePackets_example :
    ArePackets 9 fifth.to_client × ArePackets 11 fifth.to_server × IsBytes fifth.disk
unfolding server_code client_code
Run-ArePackets_example =
    Run-ArePackets internet_checksum decimal zeroed disk asking asked-Fits 3 9
      internet_checksum-IsChecksum five-IsBytes (omega arith) (omega arith) five_rounds
      Rcopy.State.recv_data (client_of fifth.receiver) refl
