-- ===== src/Events/Bus/Tests.antt =====
-- A bus with callbacks that raise, emit and unsubscribe themselves.
use ms605_ble.Prelude.{
  ℕ, zero, suc, [], ◌∷◌, ok, ◌==◌, if◌then◌else◌, ◌≡◌, refl, arith, Bool, true, false,
}
use ms605_ble.Events.Bus.{
  BusEvent, core, handler_failed, EventBus, Trace, Act, returns, raises, emits, Callbacks,
  unsubscribe, subscribe, perform_act, dispatch, emit,
}
use ms605_ble.Events.Bus.Laws.{own_calls, calls_of, IsBelow, IsRanked, emit-ends}

-- Callback 1 always raises, 2 unsubscribes itself, 3 subscribes 4, and any other one emits the event
-- before the one that it is called with.
abbrev emit_before : BusEvent ℕ → EventBus Unit → Act ℕ Unit
emit_before (core zero) bus = returns bus
emit_before (core (suc n)) bus = emits (core n) bus (λ bus'. returns bus')
emit_before (handler_failed t h e) bus = returns bus

abbrev act : Callbacks ℕ Unit
act h event bus =
    if h == 1
    then raises 7 bus
    else if h == 2
    then returns (unsubscribe 2 bus)
    else if h == 3
    then returns (subscribe 4 bus)
    else emit_before event bus

abbrev bus : EventBus Unit
bus = record { subscribers = 5 ∷ 1 ∷ 2 ∷ []; world = tt }

-- The event 0 that 5 emits is dispatched before 1 and 2 are called with the event 1, and so is each
-- report of a failure of 1 before the next callback.
emit-one :
    emit act (λ e. e) 3 (core 1) bus
    ≡ ok (
      (0, 5, core 1)
          ∷ (1, 5, core 0)
          ∷ (1, 1, core 0)
          ∷ (2, 5, handler_failed 0 1 7)
          ∷ (2, 1, handler_failed 0 1 7)
          ∷ (2, 2, handler_failed 0 1 7)
          ∷ (1, 2, core 0)
          ∷ (0, 1, core 1)
          ∷ (1, 5, handler_failed 1 1 7)
          ∷ (1, 1, handler_failed 1 1 7)
          ∷ (0, 2, core 1)
          ∷ [],
      record { subscribers = 5 ∷ 1 ∷ []; world = tt },
    )
unfolding emit dispatch perform_act unsubscribe subscribe
emit-one = refl

abbrev rank : BusEvent ℕ → ℕ
rank (core n) = suc n
rank (handler_failed t h e) = zero

emit_before-IsBelow :
    (event : BusEvent ℕ) (bus : EventBus Unit) → IsBelow rank (rank event) (emit_before event bus)
emit_before-IsBelow (core zero) bus = tt
emit_before-IsBelow (core (suc n)) bus = (ground arith, λ bus'. tt)
emit_before-IsBelow (handler_failed t h e) bus = tt

if-IsBelow :
    (n : ℕ) (b : Bool) (x y : Act ℕ Unit)
    → IsBelow rank n x
    → IsBelow rank n y
    → IsBelow rank n (if b then x else y)
if-IsBelow n true x y p q = p
if-IsBelow n false x y p q = q

act-IsRanked : IsRanked act (λ e. e) rank
act-IsRanked = record {
  lower = λ h event bus. if-IsBelow (rank event) (h == 1) _ _ tt (
      if-IsBelow (rank event) (h == 2) _ _ tt
        (if-IsBelow (rank event) (h == 3) _ _ tt (emit_before-IsBelow event bus)));
  failure = λ event h error. ground arith;
}

emit-ends_example :
    (t : Trace ℕ) × (bus' : EventBus Unit) × (emit act (λ e. e) 3 (core 1) bus ≡ ok (t, bus'))
    × (own_calls t ≡ calls_of (core 1) (5 ∷ 1 ∷ 2 ∷ []))
emit-ends_example = emit-ends act (λ e. e) rank 2 (core 1) bus act-IsRanked (ground arith)
