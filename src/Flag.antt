-- ===== src/Flag.antt =====
-- The packet flags, which pdu.c and pdu.h define.
use cpe464_a.Base.{ℕ}

abbrev pub rr : ℕ
rr = 5

abbrev pub srej : ℕ
srej = 6

abbrev pub fname_bad : ℕ
fname_bad = 7

abbrev pub filename_init : ℕ
filename_init = 8

abbrev pub fname_ok : ℕ
fname_ok = 9

abbrev pub end_of_file : ℕ
end_of_file = 10

-- DATA
abbrev pub data_flag : ℕ
data_flag = 16

abbrev pub srej_retran : ℕ
srej_retran = 17

abbrev pub data_timeout : ℕ
data_timeout = 18

abbrev pub eof_ack : ℕ
eof_ack = 32
