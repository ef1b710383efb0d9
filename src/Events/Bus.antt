-- ===== src/Events/Bus.antt =====
-- `EventBus` of ms605/events.py. A callback is a number, and what calling it does is an argument: it
-- may raise, subscribe and unsubscribe callbacks, also itself, and emit events, which are dispatched
-- at once, all while an event is dispatched. `emit` also returns the calls that were made, in order,
-- each with its event and its depth. That Python bounds the depth of calls is not modelled.
pub mod Laws
pub mod Tests
use ms605_ble.Prelude.{
  ℕ, zero, suc, List, [], ◌∷◌, ◌++◌, Option, none, some, ◌==◌, if◌then◌else◌, Result, ok, err,
  no_fuel, ◌>>=◌,
}

-- An event, or the HandlerFailed with its type name, handler and error text. A text is a number.
pub data BusEvent (E : Type 0) : Type 0 where
  core : E → BusEvent E
  handler_failed : ℕ → ℕ → ℕ → BusEvent E

-- The bus, and the state of everything that a callback can reach.
pub record EventBus (W : Type 0) : Type 0 where
  pub subscribers : List ℕ
  pub world : W

-- `self._subscribers.remove(callback)`, where a ValueError is passed over
abbrev pub remove : ℕ → List ℕ → List ℕ
remove callback [] = []
remove callback (h ∷ handlers) =
    let rest = remove callback handlers in if h == callback then handlers else h ∷ rest

module _ {W : Type 0} where
  -- `EventBus.subscribe`
  unfoldable pub subscribe : ℕ → EventBus W → EventBus W
  subscribe callback bus = record bus { subscribers = bus.subscribers ++ (callback ∷ []) }

  -- `unsubscribe` of `EventBus.subscribe`
  unfoldable pub unsubscribe : ℕ → EventBus W → EventBus W
  unsubscribe callback bus = record bus { subscribers = remove callback bus.subscribers }

-- A call of a callback with an event, and how deep in calls of `emit` it is made below the first.
abbrev pub Trace : Type 0 → Type 0
Trace E = List (ℕ × ℕ × BusEvent E)

abbrev pub deeper : {E : Type 0} → Trace E → Trace E
deeper [] = []
deeper ((k, h, event) ∷ calls) = (suc k, h, event) ∷ deeper calls

-- What a callback does: it changes the bus and its world, and then returns, raises an exception with
-- this text, or calls `emit` and goes on with what that left.
pub data Act (E W : Type 0) : Type 0 where
  returns : EventBus W → Act E W
  raises : ℕ → EventBus W → Act E W
  emits : BusEvent E → EventBus W → (EventBus W → Act E W) → Act E W

-- `callback(event)`
abbrev pub Callbacks : Type 0 → Type 0 → Type 0
Callbacks E W = ℕ → BusEvent E → EventBus W → Act E W

abbrev pub Emit : Type 0 → Type 0 → Type 0
Emit E W = BusEvent E → EventBus W → Result (Trace E × EventBus W)

module _ {E W : Type 0} where
  -- A callback's act: the calls in it, and the text of its exception.
  unfoldable pub perform_act : Emit E W → Act E W → Result (Trace E × Option ℕ × EventBus W)
  perform_act again (returns bus) = ok ([], none, bus)
  perform_act again (raises error bus) = ok ([], some error, bus)
  perform_act again (emits event bus next) = do
    (calls, bus1) ← again event bus
    (more, error, bus2) ← perform_act again (next bus1)
    ok (calls ++ more, error, bus2)

module _ {E W : Type 0} (callback : Callbacks E W) (type_name : E → ℕ) where
  -- The `except` block.
  abbrev pub report :
      Emit E W → BusEvent E → ℕ → Option ℕ → EventBus W → Result (Trace E × EventBus W)
  report again event h none bus = ok ([], bus)
  report again (handler_failed t f e) h (some error) bus = ok ([], bus)
  report again (core event) h (some error) bus =
      again (handler_failed (type_name event) h error) bus

  -- `for callback in list(self._subscribers)`
  unfoldable pub dispatch :
      Emit E W → BusEvent E → List ℕ → EventBus W → Result (Trace E × EventBus W)
  unfolding perform_act
  dispatch again event [] bus = ok ([], bus)
  dispatch again event (h ∷ handlers) bus = do
    (made, error, bus1) ← perform_act again (callback h event bus)
    (reported, bus2) ← report again event h error bus1
    (others, bus3) ← dispatch again event handlers bus2
    ok ((0, h, event) ∷ (deeper (made ++ reported) ++ others), bus3)

  -- `EventBus.emit`, whose calls of itself, and its callbacks', go `rounds` deep at most
  unfoldable pub emit : ℕ → Emit E W
  unfolding dispatch
  emit zero event bus = err no_fuel
  emit (suc rounds) event bus = dispatch (emit rounds) event bus.subscribers bus
