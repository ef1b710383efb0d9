-- ===== src/Events/Bus/Laws.antt =====
-- `emit` ends where what the callbacks emit does, and reaches every subscriber.
use ms605_ble.Prelude.{
  ℕ, zero, suc, ◌≤◌, ◌<◌, List, [], ◌∷◌, ◌++◌, Option, none, some, Result, ok, ◌≡◌, refl, ap, ap₂,
  ◌∙◌, arith,
}
use ms605_ble.Events.Bus.{
  BusEvent, core, handler_failed, EventBus, Trace, deeper, Act, returns, raises, emits, Callbacks,
  Emit, perform_act, report, dispatch, emit,
}

module _ {E : Type 0} where
  -- The calls that an `emit` makes itself, in order.
  abbrev pub own_calls : Trace E → List (ℕ × BusEvent E)
  own_calls [] = []
  own_calls ((zero, h, event) ∷ calls) = (h, event) ∷ own_calls calls
  own_calls ((suc k, h, event) ∷ calls) = own_calls calls

  -- Calls of these callbacks with an event.
  abbrev pub calls_of : BusEvent E → List ℕ → List (ℕ × BusEvent E)
  calls_of event [] = []
  calls_of event (h ∷ handlers) = (h, event) ∷ calls_of event handlers

  own_calls-append : (s t : Trace E) → own_calls (s ++ t) ≡ own_calls s ++ own_calls t
  own_calls-append [] t = refl
  own_calls-append ((zero, h, event) ∷ s) t = ap (λ l. (h, event) ∷ l) (own_calls-append s t)
  own_calls-append ((suc k, h, event) ∷ s) t = own_calls-append s t

  own_calls-deeper : (t : Trace E) → own_calls (deeper t) ≡ []
  own_calls-deeper [] = refl
  own_calls-deeper ((k, h, event) ∷ t) = own_calls-deeper t

module _ {E W : Type 0} (rank : BusEvent E → ℕ) where
  -- Whatever `emit` leaves of the bus, an act emits events of a rank below this only.
  abbrev pub IsBelow : ℕ → Act E W → Type 0
  IsBelow n (returns bus) = Unit {0}
  IsBelow n (raises error bus) = Unit {0}
  IsBelow n (emits event bus next) =
      (rank event < n) × ((bus' : EventBus W) → IsBelow n (next bus'))

-- Callbacks that emit, of an event, only events of a lower rank; also a failure to handle an event
-- is one of a lower rank.
pub record IsRanked {E W : Type 0} (callback : Callbacks E W) (type_name : E → ℕ)
    (rank : BusEvent E → ℕ) : Type 0 where
  pub lower :
      (h : ℕ) (event : BusEvent E) (bus : EventBus W)
      → IsBelow rank (rank event) (callback h event bus)
  pub failure :
      (event : E) (h error : ℕ)
      → rank (handler_failed (type_name event) h error) < rank (core event)

module _ {E W : Type 0} (rank : BusEvent E → ℕ) where
  -- Events below a rank are dispatched to an end.
  abbrev EndsBelow : ℕ → Emit E W → Type 0
  EndsBelow n again =
      (event : BusEvent E) (bus : EventBus W)
      → rank event < n
      → (t : Trace E) × (bus' : EventBus W) × (again event bus ≡ ok (t, bus'))

  perform_act-ends :
      (n : ℕ) (again : Emit E W)
      → EndsBelow n again
      → (act : Act E W) → IsBelow rank n act
      → (t : Trace E) × (error : Option ℕ) × (bus' : EventBus W) × (perform_act again act
          ≡ ok (t, error, bus'))
  unfolding perform_act
  perform_act-ends n again ends (returns bus) below = ([], none, bus, refl)
  perform_act-ends n again ends (raises error bus) below = ([], some error, bus, refl)
  perform_act-ends n again ends (emits event bus next) (lower, below) =
      let (t, bus1, e1) = ends event bus lower in
      let (more, error, bus2, e2) = perform_act-ends n again ends (next bus1) (below bus1) in
      (t ++ more, error, bus2, rw (e1, e2) refl)

module _ {E W : Type 0} (callback : Callbacks E W) (type_name : E → ℕ) (rank : BusEvent E → ℕ)
    (ranked : IsRanked callback type_name rank) where
  report-ends :
      (again : Emit E W) (event : BusEvent E)
      → EndsBelow rank (rank event) again
      → (h : ℕ) (error : Option ℕ) (bus : EventBus W)
      → (t : Trace E) × (bus' : EventBus W) × (report callback type_name again event h error bus
          ≡ ok (t, bus'))
  report-ends again (core event) ends h none bus = ([], bus, refl)
  report-ends again (handler_failed a b c) ends h none bus = ([], bus, refl)
  report-ends again (handler_failed a b c) ends h (some error) bus = ([], bus, refl)
  report-ends again (core event) ends h (some error) bus =
      ends (handler_failed (type_name event) h error) bus (ranked.failure event h error)

  -- A dispatch that ends, after just these calls of its own.
  abbrev Reaches : Result (Trace E × EventBus W) → List (ℕ × BusEvent E) → Type 0
  Reaches r calls = (t : Trace E) × (bus' : EventBus W) × (r ≡ ok (t, bus')) × (own_calls t ≡ calls)

  dispatch-Reaches :
      (again : Emit E W) (event : BusEvent E)
      → EndsBelow rank (rank event) again
      → (handlers : List ℕ) (bus : EventBus W)
      → Reaches (dispatch callback type_name again event handlers bus) (calls_of event handlers)
  unfolding dispatch
  dispatch-Reaches again event ends [] bus = ([], bus, refl, refl)
  dispatch-Reaches again event ends (h ∷ handlers) bus =
      let (made, error, bus1, e1) =
        perform_act-ends rank (rank event) again ends (callback h event bus)
          (ranked.lower h event bus) in
      let (reported, bus2, e2) = report-ends again event ends h error bus1 in
      let (others, bus3, e3, own) = dispatch-Reaches again event ends handlers bus2 in
      (
        (0, h, event) ∷ (deeper (made ++ reported) ++ others),
        bus3,
        rw (e1, e2, e3) refl,
        ap (λ l. (h, event) ∷ l)
            (own_calls-append (deeper (made ++ reported)) others
              ∙ ap₂ (λ s t. s ++ t) (own_calls-deeper (made ++ reported)) own),
      )

  emit-Reaches :
      (rounds : ℕ) (event : BusEvent E) (bus : EventBus W)
      → rank event ≤ rounds
      → Reaches (emit callback type_name (suc rounds) event bus) (calls_of event bus.subscribers)
  unfolding emit
  emit-Reaches zero event bus low =
      dispatch-Reaches (emit callback type_name zero) event
        (λ e b lower. absurd (omega (arith, low, lower))) bus.subscribers bus
  emit-Reaches (suc rounds) event bus low =
      dispatch-Reaches (emit callback type_name (suc rounds)) event
        (λ e b lower.
          let (t, bus', ended, own) = emit-Reaches rounds e b (omega (arith, low, lower)) in
          (t, bus', ended))
        bus.subscribers bus

-- Where the callbacks emit, of an event, only events of a lower rank, and a HandlerFailed has a lower
-- rank than the event that was not handled, `emit` ends, with calls of itself that go no deeper than
-- the rank of its event. The calls that it makes itself, and not a callback's `emit` or that of a
-- HandlerFailed, are those of the callbacks that were subscribed when it began, each once and in
-- order, with its event, whichever of them raise, emit, subscribe or unsubscribe meanwhile.
pub emit-ends :
    {E W : Type 0} (callback : Callbacks E W) (type_name : E → ℕ) (rank : BusEvent E → ℕ)
    (rounds : ℕ) (event : BusEvent E) (bus : EventBus W)
    → IsRanked callback type_name rank
    → rank event ≤ rounds
    → (t : Trace E) × (bus' : EventBus W) × (emit callback type_name (suc rounds) event bus
        ≡ ok (t, bus'))
      × (own_calls t ≡ calls_of event bus.subscribers)
emit-ends callback type_name rank rounds event bus ranked low =
    emit-Reaches callback type_name rank ranked rounds event bus low
