-- ===== src/Pdu/Printing.antt =====
-- `printPacket` of pdu.c: what it prints, and where its arrays do not hold what it puts into them.
use cpe464_a.Base.{
  ℕ, ◌+◌, ◌-◌, ◌^◌, ◌≤◌, ◌<◌, ◌≡◌, ◌≢◌, ◌⊎◌, ◌↔◌, inl, inr, ◌||◌, Bool-cases, Option, none, some,
  List, [], ◌∷◌, ◌++◌, length, take, drop, get_or, ltb, le→ltb, lt→ltb, ne→==, ==→eq,
  take-append_self, length-append, ◌==◌, if◌then◌else◌, u32, arith, ap, refl, sym, ◌∙◌,
}
use native.Mathlib.Decide.{dec_lt, ℕ_discrete}
use mathlib.Core.Option.{none-ne-some}
use cpe464_a.Flag
use cpe464_a.Pdu.{read_u32, create_pdu}
use cpe464_a.Pdu.RoundTrip.{read_u32-create_pdu, create_pdu-parts, length-create_pdu}

-- A block of lines that is printed, with the values in it.
pub data Report : Type 0 where
  data_report : (seq_num flag : ℕ) (text : List ℕ) → Report
  rr_report : (number seq_num flag : ℕ) → Report
  eof_report : (seq_num flag : ℕ) (text : List ℕ) → Report
  eof_ack_report : (seq_num flag : ℕ) → Report
  prints_nothing : Report

-- What "%s" prints of an array: up to its first 0, and beyond the array if it has none.
unfoldable pub printed : List ℕ → Option (List ℕ)
printed [] = none
printed (b ∷ bs) =
    let rest = printed bs in
    if b == 0 then some [] else elim rest [ none ↦ none | some text ↦ some (b ∷ text) ]

-- The branches on the flag. For FILENAME_INIT a 0 goes just past the array `filename`.
unfoldable pub print_flag : (seq_num flag : ℕ) → (payload : List ℕ) → Option Report
print_flag seq_num flag payload =
    if flag == Flag.filename_init
    then none
    else if flag == Flag.data_flag
    then elim (printed payload) [ none ↦ none | some text ↦ some (data_report seq_num flag text) ]
    else if flag == Flag.rr
    then some (rr_report (u32 (seq_num + 1)) seq_num flag)
    else if flag == Flag.end_of_file
    then elim (printed payload) [ none ↦ none | some text ↦ some (eof_report seq_num flag text) ]
    else if flag == Flag.eof_ack
    then some (eof_ack_report seq_num flag)
    else some prints_nothing

-- `printPacket` on the memory from `PDU` on; `none` is undefined behaviour: an array of no elements
-- or fewer (`filename` has pduLength - 15), or an access out of bounds.
unfoldable pub print_packet : List ℕ → (pdu_length : ℕ) → Option Report
print_packet pdu pdu_length =
    if ltb pdu_length 16 || ltb (length pdu) pdu_length
    then none
    else print_flag (read_u32 pdu 0) (get_or pdu 6 0) (take (pdu_length - 7) (drop 7 pdu))

-- A 0 stands in the list.
abbrev pub HasNul : List ℕ → Type 0
HasNul bs = (front back : List ℕ) × (bs ≡ front ++ (0 ∷ back))

-- A packet that can be printed: it is not an establishment packet, and text that is printed ends.
pub record MayPrint (flag : ℕ) (payload : List ℕ) : Type 0 where
  pub long_enough : 9 ≤ length payload
  pub not_init : flag ≢ Flag.filename_init
  pub ends : (flag ≡ Flag.data_flag) ⊎ (flag ≡ Flag.end_of_file) → HasNul payload

cons-HasNul :
    (b : ℕ) (bs text : List ℕ)
    → b ≢ 0
    → ((text : List ℕ) → printed bs ≡ some text → HasNul bs)
    → (rest : Option (List ℕ)) → printed bs ≡ rest
    → printed (b ∷ bs) ≡ some text
    → HasNul (b ∷ bs)
unfolding printed
cons-HasNul b bs text other deeper none e is = absurd (none-ne-some _ (sym (none_of e) ∙ is))
  where
    none_of : printed bs ≡ none → printed (b ∷ bs) ≡ none
    none_of e = rw (ne→== b 0 other, e) refl
cons-HasNul b bs text other deeper (some more) e is =
    let (front, back, at) = deeper more e in (b ∷ front, back, ap (λ xs. b ∷ xs) at)

printed-HasNul : (bs text : List ℕ) → printed bs ≡ some text → HasNul bs
unfolding printed
printed-HasNul [] text is = absurd (none-ne-some _ is)
printed-HasNul (b ∷ bs) text is = elim (ℕ_discrete b 0) [
  | yes nul ↦ ([], bs, ap (λ x. x ∷ bs) nul)
  | no other ↦ cons-HasNul b bs text other (printed-HasNul bs) (printed bs) refl is
]

printed_ends : (front back : List ℕ) → (text : List ℕ) × (printed (front ++ (0 ∷ back)) ≡ some text)
unfolding printed
printed_ends [] back = ([], refl)
printed_ends (b ∷ front) back = elim (Bool-cases (b == 0)) [
  | inl nul ↦ ([], rw nul refl)
  | inr other ↦ let (text, is) = printed_ends front back in (b ∷ text, rw (other, is) refl)
]

HasNul-printed : {bs : List ℕ} → HasNul bs → (text : List ℕ) × (printed bs ≡ some text)
HasNul-printed (front, back, at) =
    let (text, is) = printed_ends front back in (text, ap printed at ∙ is)

module _ (in_cksum : List ℕ → ℕ) where
  payload_of :
      (seq_num flag : ℕ) (payload rest : List ℕ)
      → take (7 + length payload - 7) (drop 7 (create_pdu in_cksum seq_num flag payload ++ rest))
        ≡ payload
  unfolding create_pdu
  payload_of seq_num flag payload rest =
      let same : 7 + length payload - 7 ≡ length payload = omega arith in
      ap (λ k. take k (payload ++ rest)) same ∙ take-append_self payload rest

  print_packet_at :
      (seq_num flag : ℕ) (payload rest : List ℕ)
      → seq_num < 2 ^ 32
      → 9 ≤ length payload
      → print_packet (create_pdu in_cksum seq_num flag payload ++ rest) (7 + length payload)
        ≡ print_flag seq_num flag payload
  unfolding print_packet
  print_packet_at seq_num flag payload rest small long =
      rw
        (
          le→ltb (7 + length payload) 16 (omega arith),
          le→ltb (length (create_pdu in_cksum seq_num flag payload ++ rest)) (7 + length payload) (
              omega (
                arith,
                length-append (create_pdu in_cksum seq_num flag payload) rest,
                length-create_pdu in_cksum seq_num flag payload,
              )),
          read_u32-create_pdu in_cksum seq_num flag payload rest small,
          (create_pdu-parts in_cksum seq_num flag payload rest).0,
          payload_of seq_num flag payload rest,
        )
        refl

  print_packet_short : (pdu : List ℕ) (len : ℕ) → len < 16 → print_packet pdu len ≡ none
  unfolding print_packet
  print_packet_short pdu len short = rw (lt→ltb len 16 short) refl

  print_flag-MayPrint :
      (seq_num flag : ℕ) (payload : List ℕ) (report : Report)
      → 9 ≤ length payload
      → print_flag seq_num flag payload ≡ some report
      → MayPrint flag payload
  unfolding print_flag
  print_flag-MayPrint seq_num flag payload report long is = record {
    long_enough = long;
    not_init = λ init. none-ne-some _ (sym (init_none init) ∙ is);
    ends = λ which. ends which (printed payload) refl;
  }
    where
      init_none : flag ≡ Flag.filename_init → print_flag seq_num flag payload ≡ none
      init_none init = rw init refl

      unended :
          (flag ≡ Flag.data_flag) ⊎ (flag ≡ Flag.end_of_file)
          → printed payload ≡ none
          → print_flag seq_num flag payload ≡ none
      unended (inl plain) e = rw (plain, e) refl
      unended (inr eof) e = rw (eof, e) refl

      ends :
          (flag ≡ Flag.data_flag) ⊎ (flag ≡ Flag.end_of_file)
          → (text : Option (List ℕ)) → printed payload ≡ text
          → HasNul payload
      ends which none e = absurd (none-ne-some _ (sym (unended which e) ∙ is))
      ends which (some text) e = printed-HasNul payload text e

  MayPrint-print_flag :
      (seq_num flag : ℕ) (payload : List ℕ)
      → MayPrint flag payload
      → (report : Report) × (print_flag seq_num flag payload ≡ some report)
  unfolding print_flag
  MayPrint-print_flag seq_num flag payload may = elim (Bool-cases (flag == Flag.filename_init)) [
    | inl init ↦ absurd (may.not_init (==→eq _ _ init))
    | inr a ↦ elim (Bool-cases (flag == Flag.data_flag)) [
      | inl plain ↦
          let (text, e) = HasNul-printed (may.ends (inl (==→eq _ _ plain))) in
          (data_report seq_num flag text, rw (a, plain, e) refl)
      | inr b ↦ elim (Bool-cases (flag == Flag.rr)) [
        | inl is_rr ↦ (rr_report (u32 (seq_num + 1)) seq_num flag, rw (a, b, is_rr) refl)
        | inr d ↦ elim (Bool-cases (flag == Flag.end_of_file)) [
          | inl eof ↦
              let (text, e) = HasNul-printed (may.ends (inr (==→eq _ _ eof))) in
              (eof_report seq_num flag text, rw (a, b, d, eof, e) refl)
          | inr f ↦ elim (Bool-cases (flag == Flag.eof_ack)) [
            | inl acked ↦ (eof_ack_report seq_num flag, rw (a, b, d, f, acked) refl)
            | inr g ↦ (prints_nothing, rw (a, b, d, f, g) refl)
          ]
        ]
      ]
    ]
  ]

  -- On the memory that begins with a packet that createPDU built, its number below 2^32, and with
  -- that packet's length, printPacket has defined behaviour exactly if the payload has at least 9
  -- bytes, the flag is not FILENAME_INIT, and under the flags DATA and END_OF_FILE the payload has
  -- a 0 in it.
  pub print_packet-MayPrint :
      (seq_num flag : ℕ) (payload rest : List ℕ)
      → seq_num < 2 ^ 32
      → ((report : Report) × (print_packet
              (create_pdu in_cksum seq_num flag payload ++ rest)
              (7 + length payload)
            ≡ some report))
        ↔ MayPrint flag payload
  print_packet-MayPrint seq_num flag payload rest small = (
    (λ printed_it. elim (dec_lt (length payload) 9) [
      | yes short ↦
          absurd (none-ne-some _ (sym (print_packet_short _ _ (omega arith)) ∙ printed_it.1))
      | no long ↦
          print_flag-MayPrint seq_num flag payload printed_it.0 (omega arith)
            (sym (print_packet_at seq_num flag payload rest small (omega arith)) ∙ printed_it.1)
    ]),
    (λ may.
        let (report, is) = MayPrint-print_flag seq_num flag payload may in
        (report, print_packet_at seq_num flag payload rest small may.long_enough ∙ is)),
  )
