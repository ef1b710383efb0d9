-- ===== src/Events/Stream.antt =====
-- `EventStream` of ms605/events.py, for events of any type. What `close` does to the bus is not part
-- of it, and `__anext__` is one pass of its loop: where it waits, it starts again once `_ready` is set.
pub mod Log
pub mod Laws
pub mod Tests
use ms605_ble.Prelude.{
  ℕ, ◌+◌, List, [], ◌∷◌, ◌++◌, Bool, true, false, leb, length, if◌then◌else◌, Error, index_error,
}

pub record EventStream (E : Type 0) : Type 0 where
  pub dropped : ℕ
  pub maxsize : ℕ
  pub queue : List E
  pub ready : Bool
  pub closed : Bool

-- What a call comes to. `waits` is `await self._ready.wait()`.
pub data Reply (E : Type 0) : Type 0 where
  done : Reply E
  raised : Error → Reply E
  event : E → Reply E
  stops : Reply E
  waits : Reply E

-- `EventStream.__init__`
abbrev pub new_stream : {E : Type 0} → ℕ → EventStream E
new_stream maxsize = record {
  dropped = 0;
  maxsize = maxsize;
  queue = [];
  ready = false;
  closed = false;
}

module _ {E : Type 0} where
  abbrev pub put_last : E → EventStream E → EventStream E
  put_last e s = record s { queue = s.queue ++ (e ∷ []); ready = true }

  -- `self._queue.popleft()`, `self.dropped += 1`, and then the rest of `_put`. Of an empty queue,
  -- `popleft` raises IndexError.
  abbrev pub put_full : E → EventStream E → List E → Reply E × EventStream E
  put_full e s [] = (raised index_error, s)
  put_full e s (oldest ∷ queue) =
      (done, put_last e (record s { queue = queue; dropped = s.dropped + 1 }))

  -- `EventStream._put`
  unfoldable pub put : E → EventStream E → Reply E × EventStream E
  put e s = if leb s.maxsize (length s.queue) then put_full e s s.queue else (done, put_last e s)

  -- `EventStream.close`
  unfoldable pub close : EventStream E → Reply E × EventStream E
  close s = (done, record s { closed = true; queue = []; ready = true })

  abbrev pub take_first : List E → EventStream E → Reply E × EventStream E
  take_first [] s = (waits, record s { ready = false })
  take_first (e ∷ queue) s = (event e, record s { queue = queue })

  -- `EventStream.__anext__`
  unfoldable pub next : EventStream E → Reply E × EventStream E
  next s = if s.closed then (stops, s) else take_first s.queue s

-- A call of a stream, and calls in turn with what each comes to.
pub data StreamCall (E : Type 0) : Type 0 where
  puts : E → StreamCall E
  takes : StreamCall E
  closes : StreamCall E

module _ {E : Type 0} where
  unfoldable pub call : StreamCall E → EventStream E → Reply E × EventStream E
  call (puts e) s = put e s
  call takes s = next s
  call closes s = close s

  unfoldable pub call_all : List (StreamCall E) → EventStream E → List (Reply E) × EventStream E
  call_all [] s = ([], s)
  call_all (c ∷ calls) s =
      let (reply, s1) = call c s in let (replies, s2) = call_all calls s1 in (reply ∷ replies, s2)
