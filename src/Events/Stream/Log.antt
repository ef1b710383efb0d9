-- ===== src/Events/Stream/Log.antt =====
-- A reader of the record of all events, as a stream promises to be: it may be shown the last of them
-- only.
use ms605_ble.Prelude.{
  ℕ, ◌+◌, ◌-◌, List, [], ◌∷◌, ◌++◌, Option, none, some, Bool, true, false, leb, length, get_elem?,
  if◌then◌else◌,
}
use ms605_ble.Events.Stream.{Reply, done, event, stops, waits, StreamCall, puts, takes, closes}

-- All events so far, and the place of the first that the reader has not been given and may still be.
pub record Log (E : Type 0) : Type 0 where
  pub events : List E
  pub position : ℕ
  pub lost : ℕ
  pub finished : Bool

abbrev pub new_log : {E : Type 0} → Log E
new_log = record { events = []; position = 0; lost = 0; finished = false }

module _ {E : Type 0} where
  abbrev pub add_last : E → Log E → Log E
  add_last e l = record l { events = l.events ++ (e ∷ []) }

  -- A reader that is `limit` events behind misses the first of them.
  abbrev pub log_put : ℕ → E → Log E → Reply E × Log E
  log_put limit e l =
      if leb limit (length l.events - l.position)
      then (done, add_last e (record l { position = l.position + 1; lost = l.lost + 1 }))
      else (done, add_last e l)

  abbrev pub read_at : Option E → Log E → Reply E × Log E
  read_at none l = (waits, l)
  read_at (some e) l = (event e, record l { position = l.position + 1 })

  abbrev pub log_next : Log E → Reply E × Log E
  log_next l = if l.finished then (stops, l) else read_at (get_elem? l.events l.position) l

  abbrev pub log_call : ℕ → StreamCall E → Log E → Reply E × Log E
  log_call limit (puts e) l = log_put limit e l
  log_call limit takes l = log_next l
  log_call limit closes l = (done, record l { position = length l.events; finished = true })

  abbrev pub log_call_all : ℕ → List (StreamCall E) → Log E → List (Reply E) × Log E
  log_call_all limit [] l = ([], l)
  log_call_all limit (c ∷ calls) l =
      let (reply, l1) = log_call limit c l in
      let (replies, l2) = log_call_all limit calls l1 in (reply ∷ replies, l2)
