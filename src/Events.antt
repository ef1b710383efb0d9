-- ===== src/Events.antt =====
-- ms605/events.py: the states that the other parts share, and in the children the bus and its
-- streams. An event's address, device id and time are left out: a session's are always the same.
pub mod Stream
pub mod Bus
use ms605_ble.Prelude.{Bool, true, false}

pub data LinkState : Type 0 where
  disconnected connecting connected lost : LinkState

pub data CalibrationState : Type 0 where
  idle starting learning succeeded failed lost timeout cancelled : CalibrationState

-- `state in TERMINAL_CALIBRATION_STATES`
abbrev pub is_terminal : CalibrationState → Bool
is_terminal CalibrationState.idle = false
is_terminal CalibrationState.starting = false
is_terminal CalibrationState.learning = false
is_terminal CalibrationState.succeeded = true
is_terminal CalibrationState.failed = true
is_terminal CalibrationState.lost = true
is_terminal CalibrationState.timeout = true
is_terminal CalibrationState.cancelled = true

-- `state is LinkState.CONNECTED`
abbrev pub is_connected : LinkState → Bool
is_connected LinkState.disconnected = false
is_connected LinkState.connecting = false
is_connected LinkState.connected = true
is_connected LinkState.lost = false
