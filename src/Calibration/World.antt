-- ===== src/Calibration/World.antt =====
-- What the calibration job meets: how each `await` ends, and what happens while it lasts.
use ms605_ble.Prelude.{ℕ, List, Option, Bool, Error}
use ms605_ble.Dicts.{Str}
use ms605_ble.Events.{LinkState}
use ms605_ble.Models.Config.{Ms605Config}
use ms605_ble.Calibration.{Busy}

-- How a call ends: with a value, with an exception and its text, or with CancelledError.
pub data Outcome (A : Type 0) : Type 0 where
  returns : A → Outcome A
  raises : Error → Str → Outcome A
  interrupted : Outcome A

-- One pause of `_wait_identify`: whether `cancel` is called in it, whether the task is cancelled in
-- it, and who holds the lock after it.
pub record Pause : Type 0 where
  pub cancels : Bool
  pub interrupts : Bool
  pub busy : Option Busy

-- How the wait for the end of learning ends: by the learning, by `cancel`, or by a cancelled task.
-- The Booleans say whether `cancel` was called as well.
pub data Wake : Type 0 where
  by_waiter : Outcome Bool → Bool → Wake
  by_cancel : Wake
  by_task : Bool → Wake

-- Where a cancelled task breaks off `_drop_learning`, if it does.
pub data Break : Type 0 where
  nowhere in_gather in_stop in_close : Break

pub record World : Type 0 where
  -- `s.busy` at the start, and the pauses before the deadline if it is "identify"
  pub busy : Option Busy
  pub pauses : List Pause
  -- the link when the lock is free, and the session's last reason for a loss, if it has one
  pub link : LinkState
  pub lost_reason : Option Str
  -- the first `read_config`
  pub read_before : Outcome Ms605Config
  pub cancels_in_read : Bool
  -- whether tag 52 was acknowledged, and how often progress is reported then
  pub acknowledged : Option ℕ
  pub wake : Wake
  pub drop_breaks : Break
  -- whether the task is cancelled in `_stop_progress`, after the wait and at the end
  pub stop_interrupts : Bool
  pub end_interrupts : Bool
  -- the second `read_config`
  pub read_after : Outcome Ms605Config
  pub cancels_in_readback : Bool
  -- the storage, if the job has one: the text of the StorageError that appending raises, if it does
  pub storage : Option (Option Str)
