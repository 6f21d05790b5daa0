-- ===== src/Lib.antt =====
-- The file transfer of rcopy.c and server.c over UDP: a client asks a server for a file, the
-- server sends it in numbered packets with a sliding window, and the client writes the packets to
-- disk in order, with RR, SREJ and EOF_ACK packets as the answers.
--
-- Checksum   in_cksum of libcpe464, a parameter of the model, with what the program relies on
--            (IsChecksum); Checksum/Internet is the concrete function that the examples use
-- Flag       the packet flags, pdu.c:17-28
-- Process    what a handler does to the outside (Action: a datagram sent, bytes written to disk), what
--            it hears (Event), and how a part of the program ends (Outcome)
-- SafeUtil   safeUtil.c: the wrappers of system calls, and how a function ends that may end the program
--            (Checked)
-- PollSet    pollLib.c: the poll table as a record and its operations; `crashes` is an access out of
--            bounds. PollSet/Watched relates it to a set of sockets, PollSet/Ready is about pollCall,
--            PollSet/Runs about any sequence of calls
-- Networks   the addresses of networks.c; Networks/Lookup has gethostbyname.c, Networks/Udp and
--            Networks/Tcp the set-up functions, Networks/Meeting the two ends of one port
-- Pdu        pdu.c: createPDU, send_buf and recv_buf, on lists of bytes; Pdu/RoundTrip relates them;
--            Pdu/Printing has printPacket
-- Window     window.c: the struct and its operations, on explicit state; `none` is an access out of
--            bounds. Window/Slots, Window/Laws and Window/Bounds are their laws
-- Rcopy      rcopy.c: the variables of processFile (Client) and enum State; Rcopy/Setup has
--            checkArgs, start_state, filename, processSelect and file_ok; Rcopy/Receive has recv_data
--            and buffer; Rcopy/Flush has flush; Rcopy/Run has the loop of processFile, Rcopy/Main main
-- Delivery   what rcopy.c is for, stated apart from its code: a Stream is the file cut into packets,
--            delivered its first chunks, and InState the invariant of each state of the client. The
--            modules below it prove each handler against it, and Delivery/Runs the whole program
-- Server     server.c: the variables of process_client (Server) and its enum State; Server/Setup has
--            filename, Server/Send send_data, Server/Resend timeout_on_ack, timeout_on_eof_ack and
--            send_srej, Server/Ack processSelect, wait_on_ack and wait_on_eof_ack, Server/Run
--            process_client and process_server, Server/Main checkArgs, main and the loop of
--            process_server. Children, Sending, Ending, Resending, Waiting and Timeouts below it
--            have their laws, and Server/Cutting puts the server's packets to the client
-- Service    what server.c is for, stated apart from its code: IsSent and Transmits say what may be
--            sent and in which order, Sends and InState are the invariant, MayMeet says what may
--            arrive. Service/Reading, Resending, Acking and Finishing are about the handlers,
--            Service/Runs about process_client. Service/Request and Opening go from the client's
--            request to the server's first state, Service/Link through recv_buf in both directions,
--            Service/Overflow to requests that the server has no room for; Service/Burst, Copy and
--            Whole join the two programs
-- Session    the two programs side by side: a Session is the state of both with a queue of datagrams
--            in each direction, a Step one round of one of them, a Run any number of steps in any
--            order. Session/Packets says what is on the way, Session/Serving and Hearing are about
--            the server's rounds and Session/Receiving about the client's, Session/Joined has the
--            joint invariant and `work` what is left to do; Session/Rounds, Turns, Keeping and
--            Answering are about them and the steps, Session/Waiting about sessions that have no
--            step, Session/Whole and Session/Bytes about all runs. A program that polls has a step
--            only when a datagram is there: no poll of a session times out
-- Repair     a data packet that is lost once while later ones arrive: Repair/Asked is the server's
--            part, Repair/Turns and Late the client's, with Delivery/Recovering and Emptying on buffer and
--            flush, Repair/Whole joins them
-- Tests      small inputs, on which the theorems are applied
--
-- A handler is a function from the variables to an Outcome: `goes` has the next state, the
-- variables and the effects in order; `exits` is exit(code); `fault` is undefined behaviour in the
-- source that its inputs bring about, such as an index out of bounds. Three lines are undefined
-- whatever the inputs, each time that they run: the byte written after data[] at rcopy.c:387 and
-- rcopy.c:473, and the call printPacket(retransmission, 12) at server.c:415, whose array would have
-- -3 elements. There the effects have a `stray` operation, and the model goes on as the compiled
-- program is taken to: the theorems on runs through these lines are about that program. The state DONE ends processFile, and main then returns
-- 0, also after a timeout with part of the file on the disk. The outside is a list of Answers, one
-- for each round of the loop of processFile. An int or a uint32_t is a natural number below 2^32,
-- its bit pattern, with u32 where the source wraps round. A packet is the list of its bytes, in
-- wire order, and the checksum's two bytes stand as a little-endian host stores them.
--
-- The loop of flush runs on fuel, one more than highest - expected, which is what it can make of
-- rounds: each raises expected, and the loop is left when expected comes up to highest. The loop
-- of processFile and that of process_client run on the list of Answers, a round for each; a round
-- of the while(1) of wait_on_eof_ack is a round of process_client in that state.
--
-- Parameters: in_cksum (libcpe464), atoi, calloc, realloc and getaddrinfo (libc), open_file (what
-- open and read find under a name), what poll reports for a descriptor, and whether the other
-- calls for sockets succeed. In the state machines what a pollCall and a recv_buf come to is an
-- answer. Assumed and not modelled: a send succeeds and returns the packet's length (safeUtil.c
-- exits if it does not, and libcpe464 drops and damages datagrams on purpose, which the receiver's
-- side of the model covers by any list of Answers); the peer's address; the child of the server
-- gets a socket and a poll table (safeGetUdpSocket and setupPollSet at server.c:233-237 end it if
-- not); what is printed (Pdu/Printing models printPacket by itself). Not modelled: handleZombies
-- of server.c, which only collects children; sendErr_init and the rest of libcpe464; printPDU,
-- window_print and the functions of gethostbyname.c and networks.c that print an address or are
-- tests; talkToServer and readFromStdin of rcopy.c, which nothing calls.
pub mod Base
pub mod Checksum
pub mod Flag
pub mod Process
pub mod SafeUtil
pub mod PollSet
pub mod Networks
pub mod Pdu
pub mod Window
pub mod Rcopy
pub mod Delivery
pub mod Server
pub mod Service
pub mod Session
pub mod Repair
pub mod Tests
