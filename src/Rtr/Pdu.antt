-- ===== src/Rtr/Pdu.antt =====
-- PDUs of rtr/rtr_pdus.h as they are received: a header, and the bytes behind its 8. rtr_pdu_check_size and
-- rtr_send_error_pdu of rtr/packets.c.
use rtrlib.Prelude.{
  ◌^◌, ◌<◌, ◌≢◌, ◌⊎◌, ◌*◌, ℕ, ◌+◌, ◌-◌, ◌/◌, ◌%◌, ◌≤◌, ◌≡◌, Bool, true, false, not, ◌&&◌, ◌||◌, ltb,
  leb, ◌==◌, if◌then◌else◌, Option, none, some, List, [], ◌∷◌, ◌++◌, arith, length,
}
use rtrlib.Rtr.Bytes.{from_byte, be32, be32_at, be32_at-be32}

-- In host byte order. `byte2` and `byte3` are the field `reserved`, which is a session id, an error code, or
-- flags and a zero.
pub record Header : Type 0 where
  pub ver : ℕ
  pub pdu_type : ℕ
  pub byte2 : ℕ
  pub byte3 : ℕ
  pub len : ℕ

abbrev pub session_field : Header → ℕ
session_field h = 256 * h.byte2 + h.byte3

-- enum pdu_type
abbrev pub serial_notify : ℕ
serial_notify = 0

abbrev pub serial_query : ℕ
serial_query = 1

abbrev pub reset_query : ℕ
reset_query = 2

abbrev pub cache_response : ℕ
cache_response = 3

abbrev pub ipv4_prefix : ℕ
ipv4_prefix = 4

abbrev pub ipv6_prefix : ℕ
ipv6_prefix = 6

abbrev pub end_of_data : ℕ
end_of_data = 7

abbrev pub cache_reset : ℕ
cache_reset = 8

abbrev pub router_key : ℕ
router_key = 9

abbrev pub error_report : ℕ
error_report = 10

abbrev pub aspa : ℕ
aspa = 11

abbrev pub rtr_max_pdu_len : ℕ
rtr_max_pdu_len = 65535

-- The case ERROR: the two length fields are read, the second one behind the erroneous PDU.
unfoldable pub check_error_size : Header → List ℕ → Bool
check_error_size h payload =
    if ltb h.len 16
    then false
    else if ltb h.len (16 + be32_at payload 0)
    then false
    else h.len == 16 + be32_at payload 0 + be32_at payload (4 + be32_at payload 0)

unfoldable pub check_aspa_size : Header → Bool
check_aspa_size h = if ltb h.len 12 then false else not (h.byte2 % 2 == 0 && not (h.len == 12))

unfoldable pub check_eod_size : Header → Bool
check_eod_size h = h.ver == 0 && h.len == 12 || (h.ver == 1 || h.ver == 2) && h.len == 24

unfoldable pub rtr_pdu_check_size : Header → List ℕ → Bool
unfolding check_error_size check_aspa_size check_eod_size
rtr_pdu_check_size h payload =
    if h.pdu_type == serial_notify
    then h.len == 12
    else if h.pdu_type == cache_response
    then h.len == 8
    else if h.pdu_type == ipv4_prefix
    then h.len == 20
    else if h.pdu_type == ipv6_prefix
    then h.len == 32
    else if h.pdu_type == end_of_data
    then check_eod_size h
    else if h.pdu_type == cache_reset
    then h.len == 8
    else if h.pdu_type == router_key
    then h.len == 123
    else if h.pdu_type == error_report
    then check_error_size h payload
    else if h.pdu_type == serial_query
    then h.len == 12
    else if h.pdu_type == reset_query
    then h.len == 8
    else if h.pdu_type == aspa
    then check_aspa_size h
    else false

-- `msg_size` and `overflow_bytes`, with 32 bits.
abbrev pub msg_size : ℕ → ℕ → ℕ
msg_size pdu_len text_len = (16 + pdu_len + text_len) % 2 ^ 32

abbrev pub overflow_bytes : ℕ → ℕ → ℕ
overflow_bytes pdu_len text_len =
    if ltb rtr_max_pdu_len (msg_size pdu_len text_len)
    then msg_size pdu_len text_len - rtr_max_pdu_len
    else 0

-- `erroneous_pdu_len` after the erroneous PDU has been cut, if the error PDU would be too long.
abbrev pub cut_len : ℕ → ℕ → ℕ
cut_len pdu_len text_len = (pdu_len + 2 ^ 32 - overflow_bytes pdu_len text_len) % 2 ^ 32

abbrev pub first_bytes : List ℕ → ℕ → List ℕ
first_bytes [] n = []
first_bytes (b ∷ bs) n = if n == 0 then [] else b ∷ first_bytes bs (n - 1)

abbrev pub type_byte : List ℕ → ℕ
type_byte [] = 0
type_byte (ver ∷ []) = 0
type_byte (ver ∷ (pdu_type ∷ bs)) = pdu_type

-- The error PDU that is sent, for the erroneous PDU's bytes and the text's; `none` where the erroneous PDU
-- is an error PDU. `version` is the socket's. The lengths are below 2^32. Where `msg_size` wraps, the header has
-- what is left of it, though the bytes behind it are written all the same.
unfoldable pub rtr_send_error_pdu : ℕ → List ℕ → ℕ → List ℕ → Option (Header × List ℕ)
rtr_send_error_pdu version erroneous code text =
    let enc = cut_len (length erroneous) (length text) in
    if leb 2 enc && type_byte erroneous == error_report
    then none
    else some (
      record {
        ver = version;
        pdu_type = error_report;
        byte2 = code / 256;
        byte3 = code % 256;
        len =
            msg_size (length erroneous) (length text)
            - overflow_bytes (length erroneous) (length text);
      },
      be32 enc ++ (first_bytes erroneous enc ++ (be32 (length text) ++ text)),
    )

-- What is sent: an error PDU of the socket's version with the code, no longer than the longest PDU, that passes
-- rtr_pdu_check_size. It has the first `enclosed` bytes of the erroneous PDU, which are all of them unless the
-- PDU is as long as it may be, and the whole text, each behind its length.
pub record IsSent (version : ℕ) (erroneous : List ℕ) (code : ℕ) (text : List ℕ)
    (p : Header × List ℕ) : Type 0 where
  pub enclosed : ℕ
  pub within : p.0.len ≤ rtr_max_pdu_len
  pub sized : rtr_pdu_check_size p.0 p.1 ≡ true
  pub header : (p.0.ver ≡ version) × (p.0.pdu_type ≡ error_report) × (session_field p.0 ≡ code)
  pub long : p.0.len ≡ 16 + enclosed + length text
  pub enclosed_len : be32_at p.1 0 ≡ enclosed
  pub enclosed_bytes : first_bytes (from_byte p.1 4) enclosed ≡ first_bytes erroneous enclosed
  pub cut :
      (enclosed ≡ length erroneous) ⊎ (p.0.len ≡ rtr_max_pdu_len) × (enclosed < length erroneous)
  pub said_len : be32_at p.1 (4 + enclosed) ≡ length text
  pub said : from_byte p.1 (8 + enclosed) ≡ text

abbrev pub SendIs : ℕ → List ℕ → ℕ → List ℕ → Option (Header × List ℕ) → Type 0
SendIs version erroneous code text none =
    (2 ≤ length erroneous) × (type_byte erroneous ≡ error_report)
SendIs version erroneous code text (some p) =
    ((length erroneous < 2) ⊎ (type_byte erroneous ≢ error_report))
    × IsSent version erroneous code text p

module _ (enc : ℕ) (bytes text : List ℕ) (fits : 16 + enc + length text ≤ 65535)
    (whole : length bytes ≡ enc) where
  abbrev payload : List ℕ
  payload = be32 enc ++ (bytes ++ (be32 (length text) ++ text))

  text_len : be32_at payload (4 + enc) ≡ length text
  text_len =
      let e : 4 + enc ≡ length (be32 enc ++ bytes) = omega (arith, whole) in
      rw e (be32_at-be32 (be32 enc ++ bytes) (length text) text (omega arith))
