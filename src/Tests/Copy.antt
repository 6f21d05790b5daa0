-- ===== src/Tests/Copy.antt =====
-- A whole run of the client on the packets that the server cuts four bytes into.
use cpe464_a.Base.{ℕ, ◌≡◌, inl, inr, refl, List, [], ◌∷◌, arith}
use cpe464_a.Checksum.Internet.{internet_checksum}
use cpe464_a.Flag
use cpe464_a.Process.{Action, exits, written}
use cpe464_a.Rcopy.{State, Result, initial_client}
use cpe464_a.Rcopy.Run.{process_file}
use cpe464_a.Delivery.{Stream, IsData, IsEof}
use cpe464_a.Delivery.Opening.{IsConfigured}
use cpe464_a.Delivery.Runs.{AllowedRun}
use cpe464_a.Server.Cutting.{cut, Cuts, process_file-copies}
use cpe464_a.Tests.Client.{atoi, argv, calloc, received, shuffled, client_code}

abbrev four : List ℕ
four = 1 ∷ 2 ∷ 3 ∷ 4 ∷ []

abbrev halves : Stream
halves = cut 3 four 2

halves-Cuts : Cuts 3 four 2
halves-Cuts = record {
  size_le = omega arith;
  in_word = omega arith;
  not_more = λ positive. omega arith;
  size_pos = omega arith;
  all = omega arith;
}

halves-IsConfigured : IsConfigured atoi argv halves
unfolding atoi
halves-IsConfigured = record {
  buffer_size = refl;
  buffer_size_le = omega arith;
  window_size_pos = omega arith;
}

first-IsData : IsData halves 1 (received 1 Flag.data_flag (1 ∷ 2 ∷ 3 ∷ []))
unfolding client_code
first-IsData = record {
  from_one = omega arith;
  to_count = omega arith;
  data_len = refl;
  payload = refl;
  not_eof = λ q. absurd (omega arith);
  retransmitted = λ q. omega arith;
}

second-IsData : IsData halves 2 (received 2 Flag.srej_retran (4 ∷ []))
unfolding client_code
second-IsData = record {
  from_one = omega arith;
  to_count = omega arith;
  data_len = refl;
  payload = refl;
  not_eof = λ q. absurd (omega arith);
  retransmitted = λ q. omega arith;
}

last-IsEof : IsEof halves (received 3 Flag.end_of_file (0 ∷ []))
unfolding client_code
last-IsEof = record { after_all = refl; eof_flag = refl; eof_len = omega arith }

shuffled-AllowedRun :
    AllowedRun internet_checksum atoi calloc argv halves State.start_state initial_client shuffled
unfolding client_code
shuffled-AllowedRun = inr (
  tt,
  inr (
    tt,
    inr (
      tt,
      inr (
        inr (inl first-IsData, omega arith),
        inr (
          inr (inr last-IsEof, omega arith),
          inr (inr (inl second-IsData, omega arith, inl refl), inr (tt, tt)),
        ),
      ),
    ),
  ),
)

abbrev acts_of : Result → List Action
acts_of (exits code acts) = acts
acts_of _ = []

abbrev shuffled_acts : List Action
shuffled_acts =
    acts_of
      (process_file internet_checksum atoi calloc argv State.start_state initial_client shuffled)

shuffled_exits :
    process_file internet_checksum atoi calloc argv State.start_state initial_client shuffled
    ≡ exits 0 shuffled_acts
unfolding client_code
shuffled_exits = refl

process_file-copies_example : written shuffled_acts ≡ four
process_file-copies_example =
    process_file-copies internet_checksum atoi calloc argv 3 four 2 halves-Cuts halves-IsConfigured
      shuffled shuffled_acts shuffled-AllowedRun shuffled_exits
