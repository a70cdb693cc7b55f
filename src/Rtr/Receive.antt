-- ===== src/Rtr/Receive.antt =====
-- rtr_receive_pdu of rtr/packets.c. What the
-- transport gives is an argument. Another thread that shuts the socket down between the two reads is left out.
use rtrlib.Prelude.{
  sym, ℕ, ◌%◌, ◌≤◌, ◌≡◌, ◌≢◌, ◌⊎◌, refl, Bool, true, not, ◌&&◌, ◌||◌, ltb, leb, ◌==◌, if◌then◌else◌,
  List, [], ◌∷◌, arith,
}
use rtrlib.Rtr.Socket.{
  rtr_change_socket_state_lem, RtrSocket, shutdown, error_fatal, error_transport, same_state,
  rtr_change_socket_state,
}
use rtrlib.Rtr.Pdu.{Header, error_report, aspa, rtr_max_pdu_len, rtr_pdu_check_size}

-- What tr_recv_all returns where it is negative.
pub data TrFailure : Type 0 where
  tr_error tr_wouldblock tr_intr tr_closed : TrFailure

-- The header is not received, or the header and not the payload, or both.
pub data Incoming : Type 0 where
  no_header : TrFailure → Incoming
  no_payload : Header → TrFailure → Incoming
  whole : Header → List ℕ → Incoming

pub data ReceiveRtval : Type 0 where
  received would_block interrupted failed : ReceiveRtval

-- `sent` are the codes of the error PDUs that are sent. Whether sending fails is not looked at.
pub record Received : Type 0 where
  pub rtval : ReceiveRtval
  pub socket : RtrSocket
  pub sent : List ℕ

abbrev pub corrupt_data : ℕ
corrupt_data = 0

abbrev pub unsupported_protocol_ver : ℕ
unsupported_protocol_ver = 4

abbrev pub unexpected_protocol_version : ℕ
unexpected_protocol_version = 8

-- No error is sent for an error PDU.
abbrev pub report : Header → ℕ → List ℕ
report h code = if h.pdu_type == error_report then [] else code ∷ []

-- The label `error` with a failure of the transport.
abbrev pub transport_failure : RtrSocket → TrFailure → Received
transport_failure s tr_error = record {
  rtval = failed;
  socket = rtr_change_socket_state s error_transport;
  sent = [];
}
transport_failure s tr_wouldblock = record { rtval = would_block; socket = s; sent = [] }
transport_failure s tr_intr = record { rtval = interrupted; socket = s; sent = [] }
transport_failure s tr_closed = record {
  rtval = failed;
  socket = rtr_change_socket_state s error_fatal;
  sent = [];
}

-- The label with CORRUPT_DATA or PDU_TOO_BIG, which is sent as CORRUPT_DATA.
abbrev pub corrupt : RtrSocket → Header → Received
corrupt s h = record {
  rtval = failed;
  socket = rtr_change_socket_state s error_fatal;
  sent = report h corrupt_data;
}

-- The label with a version that is not expected or not supported: the state stays.
abbrev pub wrong_version : RtrSocket → Header → ℕ → Received
wrong_version s h code = record { rtval = failed; socket = s; sent = report h code }

abbrev pub rtr_version_supported : ℕ → Bool
rtr_version_supported version = leb 0 version && leb version 2

-- Live downgrading, by the first PDU that is received.
unfoldable pub downgrade : RtrSocket → Header → RtrSocket
downgrade s h = if s.has_received_pdus then s else record s {
  version =
      if not (h.pdu_type == error_report) && ltb h.ver s.version && rtr_version_supported h.ver
      then h.ver
      else s.version;
  has_received_pdus = true;
}

-- From the test of the size on.
unfoldable pub check_payload : RtrSocket → Header → List ℕ → Received
check_payload s h payload =
    if not (rtr_pdu_check_size h payload)
    then corrupt s h
    else if h.pdu_type == aspa && not (h.ver == 2)
    then wrong_version s h unsupported_protocol_ver
    else if h.pdu_type == aspa && not (h.len % 4 == 0)
    then corrupt s h
    else record { rtval = received; socket = s; sent = [] }

abbrev pub receive_payload : RtrSocket → Header → Incoming → Received
receive_payload s h (no_header c) = transport_failure s c
receive_payload s h (no_payload h' c) =
    if h.len == 8 then check_payload s h [] else transport_failure s c
receive_payload s h (whole h' payload) = check_payload s h payload

-- From the test of the length in the header on.
unfoldable pub check_header : RtrSocket → Header → Incoming → Received
check_header s h i =
    if ltb h.len 8 || ltb rtr_max_pdu_len h.len
    then corrupt s h
    else if not (h.ver == (downgrade s h).version) && not (h.pdu_type == error_report)
    then wrong_version (downgrade s h) h unexpected_protocol_version
    else receive_payload (downgrade s h) h i

unfoldable pub rtr_receive_pdu : RtrSocket → Incoming → Received
rtr_receive_pdu s (no_header c) =
    if same_state s.state shutdown
    then record { rtval = failed; socket = s; sent = [] }
    else transport_failure s c
rtr_receive_pdu s (no_payload h c) =
    if same_state s.state shutdown
    then record { rtval = failed; socket = s; sent = [] }
    else check_header s h (no_payload h c)
rtr_receive_pdu s (whole h payload) =
    if same_state s.state shutdown
    then record { rtval = failed; socket = s; sent = [] }
    else check_header s h (whole h payload)

abbrev pub HasHeader : Incoming → Header → Type 0
HasHeader (no_header c) h = ⊥
HasHeader (no_payload h' c) h = h' ≡ h
HasHeader (whole h' payload) h = h' ≡ h

abbrev pub payload_of : Incoming → List ℕ
payload_of (no_header c) = []
payload_of (no_payload h c) = []
payload_of (whole h payload) = payload

-- What holds of a PDU that is accepted.
pub record IsAccepted (s : RtrSocket) (i : Incoming) (o : Received) : Type 0 where
  pub header : Header
  pub arrived : HasHeader i header
  pub long_enough : 8 ≤ header.len
  pub short_enough : header.len ≤ rtr_max_pdu_len
  pub sized : rtr_pdu_check_size header (payload_of i) ≡ true
  pub versioned : (header.ver ≡ o.socket.version) ⊎ (header.pdu_type ≡ error_report)
  pub aspa_form : (header.pdu_type ≢ aspa) ⊎ (header.ver ≡ 2) × (header.len % 4 ≡ 0)
  pub same : o.socket.state ≡ s.state
  pub silent : o.sent ≡ []

check_payload_lem :
    (s : RtrSocket) (h : Header) (payload : List ℕ)
    → (check_payload s h payload).rtval ≡ received
    → (rtr_pdu_check_size h payload ≡ true)
      × ((h.pdu_type ≢ aspa) ⊎ (h.ver ≡ 2) × (h.len % 4 ≡ 0))
      × ((check_payload s h payload).socket ≡ s)
      × ((check_payload s h payload).sent ≡ [])
unfolding check_payload
check_payload_lem s h payload e = (ground arith, ground arith, ground arith, ground arith)

receive_payload_lem :
    (s : RtrSocket) (h : Header) (i : Incoming)
    → (receive_payload s h i).rtval ≡ received
    → receive_payload s h i ≡ check_payload s h (payload_of i)
receive_payload_lem s h (no_header tr_error) e = ground arith
receive_payload_lem s h (no_header tr_wouldblock) e = ground arith
receive_payload_lem s h (no_header tr_intr) e = ground arith
receive_payload_lem s h (no_header tr_closed) e = ground arith
receive_payload_lem s h (no_payload h' tr_error) e = ground arith
receive_payload_lem s h (no_payload h' tr_wouldblock) e = ground arith
receive_payload_lem s h (no_payload h' tr_intr) e = ground arith
receive_payload_lem s h (no_payload h' tr_closed) e = ground arith
receive_payload_lem s h (whole h' payload) e = refl

downgrade-state : (s : RtrSocket) (h : Header) → (downgrade s h).state ≡ s.state
unfolding downgrade
downgrade-state s h = ground arith

header_facts :
    (s : RtrSocket) (h : Header) (i : Incoming)
    → (check_header s h i).rtval ≡ received
    → (8 ≤ h.len)
      × (h.len ≤ rtr_max_pdu_len)
      × ((h.ver ≡ (downgrade s h).version) ⊎ (h.pdu_type ≡ error_report))
      × (check_header s h i ≡ check_payload (downgrade s h) h (payload_of i))
unfolding check_header
header_facts s h i e = (
  ground arith,
  ground arith,
  ground arith,
  ground (arith, receive_payload_lem (downgrade s h) h i),
)

check_header_lem :
    (s : RtrSocket) (h : Header) (i : Incoming)
    → HasHeader i h
    → (check_header s h i).rtval ≡ received
    → IsAccepted s i (check_header s h i)
check_header_lem s h i arrived e =
    let d = downgrade s h in
    let facts = header_facts s h i e in
    let back = check_payload_lem d h (payload_of i) (rw (sym facts.3) e) in
    let same = facts.3 in
    rw same (record {
      header = h;
      arrived = arrived;
      long_enough = facts.0;
      short_enough = facts.1;
      sized = back.0;
      versioned = rw (back.2) facts.2;
      aspa_form = back.1;
      same = rw (back.2) (downgrade-state s h);
      silent = back.3;
    })

receive_failed :
    (s : RtrSocket) (c : TrFailure) → (rtr_receive_pdu s (no_header c)).rtval ≢ received
unfolding rtr_receive_pdu
receive_failed s tr_error e = ground arith
receive_failed s tr_wouldblock e = ground arith
receive_failed s tr_intr e = ground arith
receive_failed s tr_closed e = ground arith

receive_no_payload :
    (s : RtrSocket) (h : Header) (c : TrFailure)
    → (rtr_receive_pdu s (no_payload h c)).rtval ≡ received
    → rtr_receive_pdu s (no_payload h c) ≡ check_header s h (no_payload h c)
unfolding rtr_receive_pdu
receive_no_payload s h c e = ground arith

receive_whole :
    (s : RtrSocket) (h : Header) (payload : List ℕ)
    → (rtr_receive_pdu s (whole h payload)).rtval ≡ received
    → rtr_receive_pdu s (whole h payload) ≡ check_header s h (whole h payload)
unfolding rtr_receive_pdu
receive_whole s h payload e = ground arith

-- Where rtr_receive_pdu returns success, a PDU has arrived whose length lies between 8 and the longest one,
-- that has the right size for its type, is of the socket's version or an error PDU, and, if it is an ASPA
-- PDU, is of version 2 and of a length that 4 divides; the socket's state is the one from before and no
-- error PDU has been sent.
pub rtr_receive_pdu-IsAccepted :
    (s : RtrSocket) (i : Incoming)
    → (rtr_receive_pdu s i).rtval ≡ received
    → IsAccepted s i (rtr_receive_pdu s i)
rtr_receive_pdu-IsAccepted s (no_header c) e = absurd (receive_failed s c e)
rtr_receive_pdu-IsAccepted s (no_payload h c) e =
    let q = receive_no_payload s h c e in
    rw q (check_header_lem s h (no_payload h c) refl (rw (sym q) e))
rtr_receive_pdu-IsAccepted s (whole h payload) e =
    let q = receive_whole s h payload e in
    rw q (check_header_lem s h (whole h payload) refl (rw (sym q) e))

transport_failure-version :
    (s : RtrSocket) (c : TrFailure) → (transport_failure s c).socket.version ≡ s.version
transport_failure-version s tr_error = (rtr_change_socket_state_lem s error_transport).0
transport_failure-version s tr_wouldblock = refl
transport_failure-version s tr_intr = refl
transport_failure-version s tr_closed = (rtr_change_socket_state_lem s error_fatal).0

check_payload-version :
    (s : RtrSocket) (h : Header) (payload : List ℕ)
    → (check_payload s h payload).socket.version ≡ s.version
unfolding check_payload
check_payload-version s h payload = ground (arith, rtr_change_socket_state_lem s error_fatal)

receive_payload-version :
    (s : RtrSocket) (h : Header) (i : Incoming) → (receive_payload s h i).socket.version ≡ s.version
receive_payload-version s h (no_header c) = transport_failure-version s c
receive_payload-version s h (no_payload h' c) =
    ground (arith, check_payload-version s h [], transport_failure-version s c)
receive_payload-version s h (whole h' payload) = check_payload-version s h payload

downgrade-version : (s : RtrSocket) (h : Header) → (downgrade s h).version ≤ s.version
unfolding downgrade
downgrade-version s h = ground arith

check_header-version :
    (s : RtrSocket) (h : Header) (i : Incoming) → (check_header s h i).socket.version ≤ s.version
unfolding check_header
check_header-version s h i = ground (
  arith,
  rtr_change_socket_state_lem s error_fatal,
  receive_payload-version (downgrade s h) h i,
  downgrade-version s h,
)

-- Whatever arrives, receiving never raises the version of the socket.
pub rtr_receive_pdu-version :
    (s : RtrSocket) (i : Incoming) → (rtr_receive_pdu s i).socket.version ≤ s.version
unfolding rtr_receive_pdu
rtr_receive_pdu-version s (no_header c) = ground (arith, transport_failure-version s c)
rtr_receive_pdu-version s (no_payload h c) =
    ground (arith, check_header-version s h (no_payload h c))
rtr_receive_pdu-version s (whole h payload) =
    ground (arith, check_header-version s h (whole h payload))
