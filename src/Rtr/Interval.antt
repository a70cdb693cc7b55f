-- ===== src/Rtr/Interval.antt =====
-- The intervals of a socket: rtr_check_interval_range, apply_interval_value and rtr_check_interval_option of
-- rtr/packets.c, the limits of rtr/rtr_private.h, and rtr_init of rtr/rtr.c.
use rtrlib.Prelude.{
  Option, none, some, some, Option, inl, inr, ◌⊎◌, ◌≡◌, ℕ, ◌≢◌, ◌≤◌, refl, Bool, true, false, ◌&&◌,
  ltb, if◌then◌else◌, arith,
}
use rtrlib.Rtr.Socket.{
  SocketState, rtr_change_socket_state, RtrSocket, RtrRtval, success, invalid_param, IntervalMode,
  ignore_any, accept_any, default_min_max, ignore_on_failure, closed,
}

pub data IntervalRange : Type 0 where
  below_interval_range inside_interval_range above_interval_range : IntervalRange

pub data IntervalType : Type 0 where
  expiration refresh retry : IntervalType

abbrev pub minimum : IntervalType → ℕ
minimum expiration = 600
minimum refresh = 1
minimum retry = 1

abbrev pub maximum : IntervalType → ℕ
maximum expiration = 172800
maximum refresh = 86400
maximum retry = 7200

unfoldable pub rtr_check_interval_range : ℕ → ℕ → ℕ → IntervalRange
rtr_check_interval_range interval low high =
    if ltb interval low
    then below_interval_range
    else if ltb high interval
    then above_interval_range
    else inside_interval_range

abbrev pub apply_interval_value : RtrSocket → ℕ → IntervalType → RtrSocket
apply_interval_value s interval expiration = record s { expire_interval = interval }
apply_interval_value s interval refresh = record s { refresh_interval = interval }
apply_interval_value s interval retry = record s { retry_interval = interval }

-- The value that is applied, by the mode; `none` where the received one is ignored.
abbrev pub out_of_range : RtrSocket → ℕ → IntervalType → IntervalMode → IntervalRange → RtrSocket
out_of_range s interval t accept_any range = apply_interval_value s interval t
out_of_range s interval t mode inside_interval_range = apply_interval_value s interval t
out_of_range s interval t default_min_max below_interval_range =
    apply_interval_value s (minimum t) t
out_of_range s interval t default_min_max above_interval_range =
    apply_interval_value s (maximum t) t
out_of_range s interval t ignore_any range = s
out_of_range s interval t ignore_on_failure range = s

-- The interval's type is one of the three, so the answer is always RTR_SUCCESS.
unfoldable pub rtr_check_interval_option : RtrSocket → IntervalMode → ℕ → IntervalType → RtrSocket
unfolding rtr_check_interval_range
rtr_check_interval_option s mode interval t =
    out_of_range s interval t mode (rtr_check_interval_range interval (minimum t) (maximum t))

-- Every interval lies within its limits.
pub record HasIntervals (s : RtrSocket) : Type 0 where
  pub expire_low : 600 ≤ s.expire_interval
  pub expire_high : s.expire_interval ≤ 172800
  pub refresh_low : 1 ≤ s.refresh_interval
  pub refresh_high : s.refresh_interval ≤ 86400
  pub retry_low : 1 ≤ s.retry_interval
  pub retry_high : s.retry_interval ≤ 7200

-- In every mode but ACCEPT_ANY, whatever value is received, rtr_check_interval_option keeps all intervals
-- of a socket within their limits.
pub rtr_check_interval_option-HasIntervals :
    (s : RtrSocket) (mode : IntervalMode) (interval : ℕ) (t : IntervalType)
    → mode ≢ accept_any
    → HasIntervals s
    → HasIntervals (rtr_check_interval_option s mode interval t)
unfolding rtr_check_interval_option
rtr_check_interval_option-HasIntervals s ignore_any interval expiration n h = ground arith
rtr_check_interval_option-HasIntervals s ignore_any interval refresh n h = ground arith
rtr_check_interval_option-HasIntervals s ignore_any interval retry n h = ground arith
rtr_check_interval_option-HasIntervals s accept_any interval t n h = absurd (n refl)
rtr_check_interval_option-HasIntervals s default_min_max interval expiration n h = ground arith
rtr_check_interval_option-HasIntervals s default_min_max interval refresh n h = ground arith
rtr_check_interval_option-HasIntervals s default_min_max interval retry n h = ground arith
rtr_check_interval_option-HasIntervals s ignore_on_failure interval expiration n h = ground arith
rtr_check_interval_option-HasIntervals s ignore_on_failure interval refresh n h = ground arith
rtr_check_interval_option-HasIntervals s ignore_on_failure interval retry n h = ground arith

abbrev pub in_range : ℕ → IntervalType → Bool
in_range interval t = elim (rtr_check_interval_range interval (minimum t) (maximum t)) [
  | inside_interval_range ↦ true
  | _ ↦ false
]

-- The transport that is given, or else the old one.
abbrev pub transport_of : ℕ → Option ℕ → ℕ
transport_of old none = old
transport_of old (some t) = t

-- The socket is as the caller allocated it. `tr` is `none` for NULL, and `fp` says whether a callback is given.
unfoldable pub rtr_init :
    RtrSocket → Option ℕ → ℕ → ℕ → ℕ → IntervalMode → Bool → RtrRtval × RtrSocket
unfolding rtr_check_interval_range
rtr_init s tr refresh_interval expire_interval retry_interval mode fp =
    if in_range refresh_interval refresh
      && in_range expire_interval expiration
      && in_range retry_interval retry
    then (
      success,
      record s {
        tr_socket = transport_of s.tr_socket tr;
        refresh_interval = refresh_interval;
        expire_interval = expire_interval;
        retry_interval = retry_interval;
        iv_mode = mode;
        state = closed;
        request_session_id = true;
        serial_number = 0;
        last_update = 0;
        connection_state_fp = fp;
        version = 2;
        has_received_pdus = false;
        is_resetting = false;
      },
    )
    else (invalid_param, record s { tr_socket = transport_of s.tr_socket tr })

-- A change of state leaves the intervals as they are.
pub rtr_change_socket_state-HasIntervals :
    (s : RtrSocket) (new : SocketState)
    → HasIntervals s
    → HasIntervals (rtr_change_socket_state s new)
unfolding rtr_change_socket_state
rtr_change_socket_state-HasIntervals s new h = ground arith

-- The three values lie within their limits.
pub record AreLimits (refresh_interval expire_interval retry_interval : ℕ) : Type 0 where
  pub refresh_low : 1 ≤ refresh_interval
  pub refresh_high : refresh_interval ≤ 86400
  pub expire_low : 600 ≤ expire_interval
  pub expire_high : expire_interval ≤ 172800
  pub retry_low : 1 ≤ retry_interval
  pub retry_high : retry_interval ≤ 7200

in_range_cases :
    (interval : ℕ) (t : IntervalType)
    → (in_range interval t ≡ true) × (minimum t ≤ interval) × (interval ≤ maximum t)
      ⊎ (in_range interval t ≡ false) × (¬ ((minimum t ≤ interval) × (interval ≤ maximum t)))
unfolding rtr_check_interval_range
in_range_cases interval t = ground arith

-- What a successful rtr_init stores. A transport that is not given, and what is not set, are as in `s`.
pub record IsInitialised (s o : RtrSocket) (tr : Option ℕ)
    (refresh_interval expire_interval retry_interval : ℕ) (mode : IntervalMode) (fp : Bool)
    : Type 0 where
  pub transport : o.tr_socket ≡ transport_of s.tr_socket tr
  pub refreshing : o.refresh_interval ≡ refresh_interval
  pub expiring : o.expire_interval ≡ expire_interval
  pub retrying : o.retry_interval ≡ retry_interval
  pub moded : o.iv_mode ≡ mode
  pub closing : o.state ≡ closed
  pub sessionless : (o.request_session_id ≡ true) × (o.serial_number ≡ 0) × (o.last_update ≡ 0)
  pub highest : o.version ≡ 2
  pub fresh : (o.has_received_pdus ≡ false) × (o.is_resetting ≡ false)
  pub calling : o.connection_state_fp ≡ fp
  pub kept : (o.session_id ≡ s.session_id) × (o.events ≡ s.events)

-- rtr_init either succeeds, for three intervals within their limits: the socket then has just these, the mode,
-- the callback, the transport where one is given, the state CLOSED, version 2, serial number 0 and no session;
-- or it answers INVALID_PARAM, for intervals of which one is out of its limits, and has only set the transport,
-- where one is given.
pub rtr_init_lem :
    (s : RtrSocket) (tr : Option ℕ) (refresh_interval expire_interval retry_interval : ℕ)
    (mode : IntervalMode) (fp : Bool)
    → let o = rtr_init s tr refresh_interval expire_interval retry_interval mode fp in
      (o.0 ≡ success)
        × IsInitialised s o.1 tr refresh_interval expire_interval retry_interval mode fp
        × AreLimits refresh_interval expire_interval retry_interval
      ⊎ (o.0 ≡ invalid_param)
        × (o.1 ≡ record s { tr_socket = transport_of s.tr_socket tr })
        × (¬ AreLimits refresh_interval expire_interval retry_interval)
unfolding rtr_init
rtr_init_lem s tr a b c mode fp = elim (in_range_cases a refresh) [
  | inr (f, n) ↦ rw f (inr (refl, refl, λ h. n (h.refresh_low, h.refresh_high)))
  | inl (f, l, h) ↦ elim (in_range_cases b expiration) [
    | inr (g, n) ↦ rw (f, g) (inr (refl, refl, λ k. n (k.expire_low, k.expire_high)))
    | inl (g, l2, h2) ↦ elim (in_range_cases c retry) [
      | inr (e, n) ↦ rw (f, g, e) (inr (refl, refl, λ k. n (k.retry_low, k.retry_high)))
      | inl (e, l3, h3) ↦
          rw (f, g, e)
            (inl (
              refl,
              record {
                transport = refl;
                refreshing = refl;
                expiring = refl;
                retrying = refl;
                moded = refl;
                closing = refl;
                sessionless = (refl, refl, refl);
                highest = refl;
                fresh = (refl, refl);
                calling = refl;
                kept = (refl, refl);
              },
              record {
                refresh_low = l;
                refresh_high = h;
                expire_low = l2;
                expire_high = h2;
                retry_low = l3;
                retry_high = h3;
              },
            ))
    ]
  ]
]
