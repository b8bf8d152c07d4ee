-- ===== src/Fsm/Table.antt =====
-- The transitions of PathStateFsm::nextState (fsm/path_state_fsm.hpp) as a relation, against the code.
-- It is the table in the comment of nextState but for Connected in Scanning and in Connecting: the
-- comment leaves the state as it is there, and here, as in the code, these are paths that are not up.
use wifi_offload_rpi.Prelude.{
  Bool-cases, arith, false, inl, inr, leb_ℤ, ltb_ℤ, refl, true, ℤ, ◌<ℤ◌, ◌↔◌, ◌≡◌, ◌≤ℤ◌,
}
use wifi_offload_rpi.Types.{
  PathState, RssiThresholds, WpaEvent, WpaEventType, connected, connecting, disconnected, idle,
  other, path_degraded, path_down, path_up, scanning, signal_change, terminating,
}
use wifi_offload_rpi.Fsm.{is_down_state, next_state, next_state_on}

-- The states of a path that is not up, and those of a path that is.
pub data IsOff : PathState → Type 0 where
  off_idle : IsOff idle
  off_scanning : IsOff scanning
  off_connecting : IsOff connecting
  off_down : IsOff path_down

pub data IsOn : PathState → Type 0 where
  on_up : IsOn path_up
  on_degraded : IsOn path_degraded

-- One constructor for each row: the state, the kind of the event, its RSSI, and the next state.
pub data Row (t : RssiThresholds) : PathState → WpaEventType → ℤ → PathState → Type 0 where
  any_disconnected : {s : PathState} {r : ℤ} → Row t s disconnected r path_down
  any_terminating : {s : PathState} {r : ℤ} → Row t s terminating r idle
  down_strong : {s : PathState} {r : ℤ} → IsOff s → t.warn ≤ℤ r → Row t s connected r path_up
  down_weak :
      {s : PathState} {r : ℤ}
      → IsOff s
      → r <ℤ t.warn
      → t.drop ≤ℤ r
      → Row t s connected r path_degraded
  down_lost : {s : PathState} {r : ℤ} → IsOff s → r <ℤ t.drop → Row t s connected r path_down
  live_connected : {s : PathState} {r : ℤ} → IsOn s → Row t s connected r s
  up_falls : {r : ℤ} → r <ℤ t.warn → Row t path_up signal_change r path_degraded
  up_stays : {r : ℤ} → t.warn ≤ℤ r → Row t path_up signal_change r path_up
  degraded_rises : {r : ℤ} → t.warn ≤ℤ r → Row t path_degraded signal_change r path_up
  degraded_falls : {r : ℤ} → r <ℤ t.drop → Row t path_degraded signal_change r path_down
  degraded_stays :
      {r : ℤ} → r <ℤ t.warn → t.drop ≤ℤ r → Row t path_degraded signal_change r path_degraded
  down_signal : {s : PathState} {r : ℤ} → IsOff s → Row t s signal_change r s
  any_other : {s : PathState} {r : ℤ} → Row t s other r s

IsOff-is_down_state : {s : PathState} → IsOff s → is_down_state s ≡ true
unfolding is_down_state
IsOff-is_down_state off_idle = refl
IsOff-is_down_state off_scanning = refl
IsOff-is_down_state off_connecting = refl
IsOff-is_down_state off_down = refl

IsOn-is_down_state : {s : PathState} → IsOn s → is_down_state s ≡ false
unfolding is_down_state
IsOn-is_down_state on_up = refl
IsOn-is_down_state on_degraded = refl

Row-next_state_on :
    {t : RssiThresholds} {k : WpaEventType} {s s' : PathState} {r : ℤ}
    → t.drop ≤ℤ t.warn
    → Row t s k r s'
    → s' ≡ next_state_on k s r t
unfolding next_state_on
Row-next_state_on h any_disconnected = refl
Row-next_state_on h any_terminating = refl
Row-next_state_on h (down_strong d p) = let off = IsOff-is_down_state d in ground arith
Row-next_state_on h (down_weak d p q) = let off = IsOff-is_down_state d in ground arith
Row-next_state_on h (down_lost d p) = let off = IsOff-is_down_state d in ground arith
Row-next_state_on h (live_connected d) = let on = IsOn-is_down_state d in ground arith
Row-next_state_on h (up_falls p) = ground arith
Row-next_state_on h (up_stays p) = ground arith
Row-next_state_on h (degraded_rises p) = ground arith
Row-next_state_on h (degraded_falls p) = ground arith
Row-next_state_on h (degraded_stays p q) = ground arith
Row-next_state_on h (down_signal d) = let off = IsOff-is_down_state d in ground arith
Row-next_state_on h any_other = refl

connected-Row :
    (t : RssiThresholds) (s : PathState) (r : ℤ)
    → IsOff s
    → Row t s connected r (next_state_on connected s r t)
unfolding next_state_on
connected-Row t s r off =
    let d = IsOff-is_down_state off in
    elim (Bool-cases (leb_ℤ t.warn r)) [
      | inl strong ↦ rw (d, strong) (down_strong off (ground arith))
      | inr weak ↦ elim (Bool-cases (leb_ℤ t.drop r)) [
        | inl above ↦ rw (d, weak, above) (down_weak off (ground arith) (ground arith))
        | inr below ↦ rw (d, weak, below) (down_lost off (ground arith))
      ]
    ]

up-Row :
    (t : RssiThresholds) (r : ℤ)
    → Row t path_up signal_change r (next_state_on signal_change path_up r t)
unfolding next_state_on
up-Row t r = elim (Bool-cases (ltb_ℤ r t.warn)) [
  | inl weak ↦ rw weak (up_falls (ground arith))
  | inr strong ↦ rw strong (up_stays (ground arith))
]

degraded-Row :
    (t : RssiThresholds) (r : ℤ)
    → Row t path_degraded signal_change r (next_state_on signal_change path_degraded r t)
unfolding next_state_on
degraded-Row t r = elim (Bool-cases (leb_ℤ t.warn r)) [
  | inl strong ↦ rw strong (degraded_rises (ground arith))
  | inr weak ↦ elim (Bool-cases (ltb_ℤ r t.drop)) [
    | inl below ↦ rw (weak, below) (degraded_falls (ground arith))
    | inr above ↦ rw (weak, above) (degraded_stays (ground arith) (ground arith))
  ]
]

next_state_on-Row :
    (t : RssiThresholds) (k : WpaEventType) (s : PathState) (r : ℤ)
    → Row t s k r (next_state_on k s r t)
unfolding next_state_on
next_state_on-Row t terminating s r = any_terminating
next_state_on-Row t disconnected s r = any_disconnected
next_state_on-Row t other s r = any_other
next_state_on-Row t connected path_up r = live_connected on_up
next_state_on-Row t connected path_degraded r = live_connected on_degraded
next_state_on-Row t connected idle r = connected-Row t idle r off_idle
next_state_on-Row t connected scanning r = connected-Row t scanning r off_scanning
next_state_on-Row t connected connecting r = connected-Row t connecting r off_connecting
next_state_on-Row t connected path_down r = connected-Row t path_down r off_down
next_state_on-Row t signal_change path_up r = up-Row t r
next_state_on-Row t signal_change path_degraded r = degraded-Row t r
next_state_on-Row t signal_change idle r = down_signal off_idle
next_state_on-Row t signal_change scanning r = down_signal off_scanning
next_state_on-Row t signal_change connecting r = down_signal off_connecting
next_state_on-Row t signal_change path_down r = down_signal off_down

-- With drop at most warn, a row of the relation leads from a state and an event to `s'` exactly when
-- nextState computes `s'`: Connected lifts a path from Idle, Scanning, Connecting and PathDown, which
-- the table in nextState's comment says of Idle and PathDown only; the other rows are the comment's.
pub next_state_iff_Row :
    (t : RssiThresholds) (s s' : PathState) (ev : WpaEvent)
    → t.drop ≤ℤ t.warn
    → Row t s ev.type ev.rssi s' ↔ (s' ≡ next_state s ev t)
unfolding next_state
next_state_iff_Row t s s' ev h =
    (Row-next_state_on h, λ e. rw e (next_state_on-Row t ev.type s ev.rssi))
