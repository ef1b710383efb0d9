-- ===== src/Events/Stream/Tests.antt =====
-- A stream of two events at most.
use ms605_ble.Prelude.{ℕ, List, [], ◌∷◌, ◌≡◌, refl, arith, index_error}
use ms605_ble.Events.Stream.{
  done, raised, event, stops, waits, new_stream, put, next, close, call, call_all, StreamCall, puts,
  takes, closes,
}
use ms605_ble.Events.Stream.Log.{log_call_all, new_log}
use ms605_ble.Events.Stream.Laws.{Shows, call_all-refines}

abbrev calls : List (StreamCall ℕ)
calls = takes ∷ puts 1 ∷ puts 2 ∷ puts 3 ∷ takes ∷ takes ∷ takes ∷ closes ∷ puts 4 ∷ takes ∷ []

calls-replies :
    (call_all calls (new_stream 2)).0
    ≡ waits ∷ done ∷ done ∷ done ∷ event 2 ∷ event 3 ∷ waits ∷ done ∷ done ∷ stops ∷ []
unfolding call_all call put next close
calls-replies = refl

-- A stream of no events fails at the first.
call_all-no_room : (call_all {E = ℕ} (puts 1 ∷ []) (new_stream 0)).0 ≡ raised index_error ∷ []
unfolding call_all call put
call_all-no_room = refl

call_all-refines_example :
    ((call_all calls (new_stream 2)).0 ≡ (log_call_all 2 calls new_log).0)
    × Shows 2 ((call_all calls (new_stream 2)).1) ((log_call_all 2 calls new_log).1)
call_all-refines_example = call_all-refines 2 calls (omega arith)
