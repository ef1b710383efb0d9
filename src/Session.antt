-- ===== src/Session.antt =====
-- The operation lock and the live output of ms605/session.py. A call and the write that it awaits are
-- one step: what other tasks do while the device acknowledges is not modelled. `tag54_writes` is not a
-- field of the code: it is the trace of the writes of tag 54 that the device acknowledged on the link
-- that is up. What the device sends is not modelled; during a calibration it streams on its own,
-- whatever was written.
pub mod Live
pub mod Tests
use ms605_ble.Prelude.{
  ℕ, ◌+◌, ◌-◌, List, [], ◌∷◌, Option, none, some, Bool, true, false, not, ◌&&◌, ◌==◌, ltb,
  if◌then◌else◌, Result, ok, err, Error, session_busy, connection_error, ms605_error,
}
use ms605_ble.Events.{LinkState, is_connected}

-- The reasons that a lock is held for, of which the code tells one from the others.
pub data Reason : Type 0 where
  calibration another : Reason

-- The fields of a DeviceSession that these methods change, `live_before` of the held lock, and the
-- trace, last write first.
pub record DeviceSession : Type 0 where
  pub state : LinkState
  pub busy : Option Reason
  pub live : ℕ
  pub live_before : Bool
  pub tag54_writes : List Bool

abbrev pub new_session : DeviceSession
new_session = record {
  state = LinkState.disconnected;
  busy = none;
  live = 0;
  live_before = false;
  tag54_writes = [];
}

-- `self.busy == "calibration"`
abbrev pub is_calibrating : Option Reason → Bool
is_calibrating none = false
is_calibrating (some calibration) = true
is_calibrating (some another) = false

-- `await self.ms.set_live_output(enabled)`, and whether the device acknowledges it
abbrev pub set_live_output : Bool → Bool → DeviceSession → DeviceSession
set_live_output enabled acked s =
    if acked then record s { tag54_writes = enabled ∷ s.tag54_writes } else s

-- `self.state is LinkState.CONNECTED and self.busy != "calibration"`
abbrev pub may_write : DeviceSession → Bool
may_write s = is_connected s.state && not (is_calibrating s.busy)

-- `DeviceSession.acquire_live`
unfoldable pub acquire_live : Bool → DeviceSession → DeviceSession
acquire_live acked s =
    let s1 = record s { live = s.live + 1 } in
    if s1.live == 1 && may_write s1 then set_live_output true acked s1 else s1

-- `DeviceSession.release_live`
unfoldable pub release_live : Bool → DeviceSession → DeviceSession
release_live acked s =
    let s1 = record s { live = s.live - 1 } in
    if s.live == 0
    then s
    else if s1.live == 0 && may_write s1
    then set_live_output false acked s1
    else s1

-- The part of `operation` before its `yield`.
abbrev pub take_lock : Option Reason → Reason → DeviceSession → Result (Unit {0}) × DeviceSession
take_lock (some held) reason s = (err session_busy, s)
take_lock none reason s =
    if not (is_connected s.state)
    then (err connection_error, s)
    else (ok tt, record s { busy = some reason; live_before = ltb 0 s.live })

unfoldable pub begin_operation : Reason → DeviceSession → Result (Unit {0}) × DeviceSession
begin_operation reason s = take_lock s.busy reason s

abbrev pub same_flag : Bool → Bool → Bool
same_flag true b = b
same_flag false b = not b

-- `DeviceSession._resync_live`
unfoldable pub resync_live : Bool → Bool → DeviceSession → DeviceSession
resync_live was_on acked s =
    let want = ltb 0 s.live in
    if same_flag want was_on
    then s
    else if not (is_connected s.state)
    then s
    else set_live_output want acked s

abbrev pub drop_lock : Option Reason → Bool → DeviceSession → DeviceSession
drop_lock none acked s = s
drop_lock (some another) acked s = record s { busy = none }
drop_lock (some calibration) acked s = resync_live s.live_before acked (record s { busy = none })

-- The `finally` of `operation`, by whoever holds the lock.
unfoldable pub end_operation : Bool → DeviceSession → DeviceSession
end_operation acked s = drop_lock s.busy acked s

-- `DeviceSession._lose`
unfoldable pub lose : DeviceSession → DeviceSession
lose s = if is_connected s.state then record s { state = LinkState.lost; tag54_writes = [] } else s

abbrev pub can_connect : LinkState → Bool
can_connect LinkState.disconnected = true
can_connect LinkState.connecting = false
can_connect LinkState.connected = false
can_connect LinkState.lost = true

-- `DeviceSession._establish`, whose attempt is one step too: whether the link comes up, and whether
-- the device acknowledges the write after it.
unfoldable pub establish : Bool → Bool → DeviceSession → Result (Unit {0}) × DeviceSession
establish comes_up acked s =
    let s1 = record s { state = LinkState.connected; tag54_writes = [] } in
    if not (can_connect s.state)
    then (err ms605_error, s)
    else if not comes_up
    then (err connection_error, s)
    else (
      ok tt,
      if ltb 0 s1.live && not (is_calibrating s1.busy) then set_live_output true acked s1 else s1,
    )

-- `DeviceSession.close`
unfoldable pub close_session : DeviceSession → DeviceSession
close_session s = record s { state = LinkState.disconnected; tag54_writes = [] }

-- A call, with whether the device acknowledges a write in it, and for a connect whether the link
-- comes up.
pub data SessionCall : Type 0 where
  acquires releases : Bool → SessionCall
  begins : Reason → SessionCall
  ends : Bool → SessionCall
  loses : SessionCall
  connects : Bool → Bool → SessionCall
  closes : SessionCall

unfoldable pub perform_call : SessionCall → DeviceSession → DeviceSession
perform_call (acquires acked) s = acquire_live acked s
perform_call (releases acked) s = release_live acked s
perform_call (begins reason) s = (begin_operation reason s).1
perform_call (ends acked) s = end_operation acked s
perform_call loses s = lose s
perform_call (connects comes_up acked) s = (establish comes_up acked s).1
perform_call closes s = close_session s
