-- ===== src/Rtr/Socket.antt =====
-- struct rtr_socket of rtr/rtr.h, and the change of its state in rtr/packets.c. The pointers to the
-- tables, the parameters of the callback and the thread are left out.
use rtrlib.Prelude.{
  inr, inl, Bool-cases, true, ◌∙◌, ap, refl, ◌⊎◌, ℕ, ◌≡◌, Bool, [], ◌==◌, if◌then◌else◌, List, ◌∷◌,
  arith,
}

pub data SocketState : Type 0 where
  connecting established reset sync fast_reconnect error_no_data_avail error_no_incr_update_avail
        error_fatal error_transport shutdown closed :
      SocketState

-- The value of the enumeration.
abbrev pub state_code : SocketState → ℕ
state_code connecting = 0
state_code established = 1
state_code reset = 2
state_code sync = 3
state_code fast_reconnect = 4
state_code error_no_data_avail = 5
state_code error_no_incr_update_avail = 6
state_code error_fatal = 7
state_code error_transport = 8
state_code shutdown = 9
state_code closed = 10

pub data IntervalMode : Type 0 where
  ignore_any accept_any default_min_max ignore_on_failure : IntervalMode

pub data RtrRtval : Type 0 where
  success error invalid_param : RtrRtval

-- `connection_state_fp` says whether a callback is installed, and `events` are the states with which it has
-- been called, the last one first.
-- `tr_socket` stands for the pointer, 0 for NULL.
pub record RtrSocket : Type 0 where
  pub tr_socket : ℕ
  pub refresh_interval : ℕ
  pub last_update : ℕ
  pub expire_interval : ℕ
  pub retry_interval : ℕ
  pub iv_mode : IntervalMode
  pub state : SocketState
  pub session_id : ℕ
  pub request_session_id : Bool
  pub serial_number : ℕ
  pub connection_state_fp : Bool
  pub version : ℕ
  pub has_received_pdus : Bool
  pub is_resetting : Bool
  pub events : List SocketState

abbrev pub same_state : SocketState → SocketState → Bool
same_state a b = state_code a == state_code b

abbrev pub tell_state : RtrSocket → SocketState → List SocketState
tell_state s new = if s.connection_state_fp then new ∷ s.events else s.events

-- A socket that shuts down stays so.
unfoldable pub rtr_change_socket_state : RtrSocket → SocketState → RtrSocket
rtr_change_socket_state s new =
    if same_state s.state new
    then s
    else if same_state s.state shutdown
    then s
    else record s { state = new; events = tell_state s new }

-- The new state or the old one; the rest of the socket but the events is as before.
pub rtr_change_socket_state_lem :
    (s : RtrSocket) (new : SocketState)
    → ((rtr_change_socket_state s new).version ≡ s.version)
      × (((rtr_change_socket_state s new).state ≡ new)
          ⊎ ((rtr_change_socket_state s new).state ≡ s.state))
unfolding rtr_change_socket_state
rtr_change_socket_state_lem s new = (ground arith, ground arith)

code_reconnect : (x : SocketState) → same_state x fast_reconnect ≡ true → x ≡ fast_reconnect
code_reconnect x e = ground arith

code_shutdown : (x : SocketState) → same_state x shutdown ≡ true → x ≡ shutdown
code_shutdown x e = ground arith

-- A change to reconnecting takes place but for a socket that is shut down.
pub rtr_change_socket_state-reconnect :
    (s : RtrSocket)
    → (s.state ≡ shutdown) × ((rtr_change_socket_state s fast_reconnect).state ≡ shutdown)
      ⊎ ((rtr_change_socket_state s fast_reconnect).state ≡ fast_reconnect)
unfolding rtr_change_socket_state
rtr_change_socket_state-reconnect s = elim (Bool-cases (same_state s.state fast_reconnect)) [
  | inl e ↦ rw e (inr (code_reconnect s.state e))
  | inr e ↦ elim (Bool-cases (same_state s.state shutdown)) [
    | inl f ↦ rw (e, f) (inl (code_shutdown s.state f, code_shutdown s.state f))
    | inr f ↦ rw (e, f) (inr refl)
  ]
]

-- The state changes of a sequence, one after the other.
abbrev pub change_states : RtrSocket → List SocketState → RtrSocket
change_states s [] = s
change_states s (new ∷ news) = change_states (rtr_change_socket_state s new) news

shutdown_kept :
    (s : RtrSocket) (new : SocketState) → s.state ≡ shutdown → rtr_change_socket_state s new ≡ s
unfolding rtr_change_socket_state
shutdown_kept s new e = ground arith

stays_shutdown :
    (s : RtrSocket) (news : List SocketState) → s.state ≡ shutdown → change_states s news ≡ s
stays_shutdown s [] e = refl
stays_shutdown s (new ∷ news) e =
    ap (λ z. change_states z news) (shutdown_kept s new e) ∙ stays_shutdown s news e

change_to_shutdown : (s : RtrSocket) → (rtr_change_socket_state s shutdown).state ≡ shutdown
unfolding rtr_change_socket_state
change_to_shutdown s = ground arith

-- Once its state has been changed to SHUTDOWN, no sequence of changes of state has an effect on a socket: its
-- state is SHUTDOWN, and no callback is called any more.
pub change_states-shutdown :
    (s : RtrSocket) (news : List SocketState)
    → let u = rtr_change_socket_state s shutdown in
      ((change_states u news).state ≡ shutdown) × ((change_states u news).events ≡ u.events)
change_states-shutdown s news =
    let u = rtr_change_socket_state s shutdown in
    let e = stays_shutdown u news (change_to_shutdown s) in
    (ap (λ (x : RtrSocket). x.state) e ∙ change_to_shutdown s, ap (λ (x : RtrSocket). x.events) e)
