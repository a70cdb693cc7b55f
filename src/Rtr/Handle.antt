-- ===== src/Rtr/Handle.antt =====
-- What rtr/packets.c does with an error PDU, a cache response and an end of data.
use rtrlib.Prelude.{
  ◌≤◌, inl, inr, Bool-cases, sym, ◌∙◌, inr, inl, Bool-cases, ◌∙◌, sym, ℕ, ◌<◌, ◌≡◌, ◌≢◌, ◌⊎◌, Bool,
  true, false, not, ◌&&◌, ◌||◌, ltb, leb, ◌==◌, if◌then◌else◌, List, arith,
}
use rtrlib.Rtr.Socket.{
  rtr_change_socket_state-reconnect, shutdown, rtr_change_socket_state_lem, RtrSocket, error_fatal,
  error_no_data_avail, fast_reconnect, rtr_change_socket_state, IntervalMode, ignore_any,
  accept_any, default_min_max, ignore_on_failure,
}
use rtrlib.Rtr.Interval.{
  rtr_change_socket_state-HasIntervals, IntervalType, rtr_check_interval_option, expiration,
  refresh, retry, HasIntervals, rtr_check_interval_option-HasIntervals,
}
use rtrlib.Rtr.Bytes.{be32_at}
use rtrlib.Rtr.Pdu.{Header, session_field}

-- The text of the error is only logged.
unfoldable pub rtr_handle_error_pdu : RtrSocket → Header → RtrSocket
rtr_handle_error_pdu s h =
    if session_field h == 2
    then rtr_change_socket_state s error_no_data_avail
    else if session_field h == 4
    then (if leb h.ver 2 && leb 0 h.ver && ltb h.ver s.version
        then rtr_change_socket_state (record s { version = h.ver }) fast_reconnect
        else rtr_change_socket_state s error_fatal)
    else rtr_change_socket_state s error_fatal

-- The answer says whether RTR_SUCCESS is returned.
unfoldable pub rtr_handle_cache_response_pdu : RtrSocket → Header → Bool × RtrSocket
rtr_handle_cache_response_pdu s h =
    if s.request_session_id
    then (
      true,
      record s {
        session_id = session_field h;
        last_update = 0;
        is_resetting = if s.last_update == 0 then s.is_resetting else true;
      },
    )
    else if s.session_id == session_field h
    then (true, s)
    else (false, rtr_change_socket_state s error_fatal)

abbrev pub apply_intervals : RtrSocket → List ℕ → RtrSocket
apply_intervals s payload =
    let s1 = rtr_check_interval_option s s.iv_mode (be32_at payload 12) expiration in
    let s2 = rtr_check_interval_option s1 s1.iv_mode (be32_at payload 4) refresh in
    rtr_check_interval_option s2 s2.iv_mode (be32_at payload 8) retry

abbrev pub is_ignore_any : IntervalMode → Bool
is_ignore_any ignore_any = true
is_ignore_any mode = false

-- The answer says whether RTR_SUCCESS is returned.
unfoldable pub rtr_handle_eod_pdu : RtrSocket → Header → List ℕ → Bool × RtrSocket
rtr_handle_eod_pdu s h payload =
    if not (session_field h == s.session_id)
    then (false, rtr_change_socket_state s error_fatal)
    else if (h.ver == 1 || h.ver == 2) && not (is_ignore_any s.iv_mode)
    then (true, apply_intervals s payload)
    else (true, s)

mode_kept :
    (s : RtrSocket) (mode : IntervalMode) (interval : ℕ) (t : IntervalType)
    → (rtr_check_interval_option s mode interval t).iv_mode ≡ s.iv_mode
unfolding rtr_check_interval_option
mode_kept s ignore_any interval expiration = ground arith
mode_kept s ignore_any interval refresh = ground arith
mode_kept s ignore_any interval retry = ground arith
mode_kept s accept_any interval expiration = ground arith
mode_kept s accept_any interval refresh = ground arith
mode_kept s accept_any interval retry = ground arith
mode_kept s default_min_max interval expiration = ground arith
mode_kept s default_min_max interval refresh = ground arith
mode_kept s default_min_max interval retry = ground arith
mode_kept s ignore_on_failure interval expiration = ground arith
mode_kept s ignore_on_failure interval refresh = ground arith
mode_kept s ignore_on_failure interval retry = ground arith

apply_intervals-HasIntervals :
    (s : RtrSocket) (payload : List ℕ)
    → s.iv_mode ≢ accept_any
    → HasIntervals s
    → HasIntervals (apply_intervals s payload)
apply_intervals-HasIntervals s payload n h =
    let s1 = rtr_check_interval_option s s.iv_mode (be32_at payload 12) expiration in
    let s2 = rtr_check_interval_option s1 s1.iv_mode (be32_at payload 4) refresh in
    let k1 = mode_kept s s.iv_mode (be32_at payload 12) expiration in
    let k2 = mode_kept s1 s1.iv_mode (be32_at payload 4) refresh in
    let h1 =
      rtr_check_interval_option-HasIntervals s s.iv_mode (be32_at payload 12) expiration n h in
    let h2 =
      rtr_check_interval_option-HasIntervals s1 s1.iv_mode (be32_at payload 4) refresh
        (λ e. n (sym k1 ∙ e)) h1 in
    rtr_check_interval_option-HasIntervals s2 s2.iv_mode (be32_at payload 8) retry
      (λ e. n (sym k1 ∙ (sym k2 ∙ e))) h2

-- Whatever an end of data carries, in every interval mode but ACCEPT_ANY, all intervals of the socket stay
-- within their limits.
pub rtr_handle_eod_pdu-HasIntervals :
    (s : RtrSocket) (h : Header) (payload : List ℕ)
    → s.iv_mode ≢ accept_any
    → HasIntervals s
    → HasIntervals (rtr_handle_eod_pdu s h payload).1
unfolding rtr_handle_eod_pdu
rtr_handle_eod_pdu-HasIntervals s h payload n ok =
    let stopped = rtr_change_socket_state-HasIntervals s error_fatal ok in
    let applied = apply_intervals-HasIntervals s payload n ok in
    elim (Bool-cases (not (session_field h == s.session_id))) [
      | inl e ↦ rw e stopped
      | inr e ↦ elim (Bool-cases ((h.ver == 1 || h.ver == 2) && not (is_ignore_any s.iv_mode))) [
        | inl f ↦ rw (e, f) applied
        | inr f ↦ rw (e, f) ok
      ]
    ]

-- After an error PDU a socket that was not reconnecting is reconnecting only for the code 4, an unsupported
-- version, with a PDU of a supported version lower than the socket's, which it has then taken over. Otherwise it
-- is not reconnecting: either the PDU was not such a one, and its version is the one from before; or it was and
-- is shut down, and has taken over the lower version.
pub rtr_handle_error_pdu-version :
    (s : RtrSocket) (h : Header)
    → s.state ≢ fast_reconnect
    → let o = rtr_handle_error_pdu s h in
      (o.state ≡ fast_reconnect)
        × (session_field h ≡ 4)
        × (h.ver ≤ 2)
        × (h.ver < s.version)
        × (o.version ≡ h.ver)
      ⊎ (o.state ≢ fast_reconnect)
        × ((o.version ≡ s.version) × (¬ ((session_field h ≡ 4) × (h.ver ≤ 2) × (h.ver < s.version)))
            ⊎ (s.state ≡ shutdown)
              × (o.state ≡ shutdown)
              × (session_field h ≡ 4)
              × (h.ver ≤ 2)
              × (h.ver < s.version)
              × (o.version ≡ h.ver))
unfolding rtr_handle_error_pdu
rtr_handle_error_pdu-version s h n = ground (
  arith,
  rtr_change_socket_state_lem s error_no_data_avail,
  rtr_change_socket_state_lem s error_fatal,
  rtr_change_socket_state_lem (record s { version = h.ver }) fast_reconnect,
  rtr_change_socket_state-reconnect (record s { version = h.ver }),
)
