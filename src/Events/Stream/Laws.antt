-- ===== src/Events/Stream/Laws.antt =====
-- A stream against the record of all events that were put into it, of which it may show the last.
use ms605_ble.Prelude.{
  ℕ, zero, suc, ◌+◌, ◌-◌, ◌≤◌, List, [], ◌∷◌, ◌++◌, none, some, Bool, true, false, leb, length,
  drop, get_elem?, if◌then◌else◌, ◌≡◌, refl, sym, ap, ap₂, ◌∙◌, arith, length-append, length-drop,
  drop-all, drop-append_le,
}
use ms605_ble.Events.Stream.{
  EventStream, Reply, done, new_stream, put_last, put_full, put, close, take_first, next,
  StreamCall, puts, takes, closes, call, call_all,
}
use ms605_ble.Events.Stream.Log.{Log, new_log, add_last, log_put, read_at, log_call, log_call_all}

module _ {E : Type 0} where
  -- The queue is what the record holds from its place on, and no longer than `limit`; a reader that
  -- waits has nothing to read.
  pub record Shows (limit : ℕ) (s : EventStream E) (l : Log E) : Type 0 where
    pub queue : s.queue ≡ drop l.position l.events
    pub inside : l.position ≤ length l.events
    pub dropped : s.dropped ≡ l.lost
    pub closed : s.closed ≡ l.finished
    pub maxsize : s.maxsize ≡ limit
    pub small : length s.queue ≤ limit
    pub awake : s.ready ≡ false → (s.queue ≡ []) × (s.closed ≡ false)

  abbrev Agree : ℕ → Reply E × EventStream E → Reply E × Log E → Type 0
  Agree limit x y = (x.0 ≡ y.0) × Shows limit (x.1) (y.1)

  tested-Agree :
      (limit : ℕ) (b c : Bool)
      → b ≡ c
      → (x y : Reply E × EventStream E) (x' y' : Reply E × Log E) → (b ≡ true → Agree limit x x')
      → (b ≡ false → Agree limit y y')
      → Agree limit (if b then x else y) (if c then x' else y')
  tested-Agree limit true true h x y x' y' p q = p refl
  tested-Agree limit true false h x y x' y' p q = absurd (cc h)
  tested-Agree limit false true h x y x' y' p q = absurd (cc h)
  tested-Agree limit false false h x y x' y' p q = q refl

  drop-first :
      (n : ℕ) (xs queue : List E) (x : E)
      → x ∷ queue ≡ drop n xs
      → (get_elem? xs n ≡ some x) × (queue ≡ drop (suc n) xs)
  drop-first zero [] queue x h = absurd (cc h)
  drop-first zero (y ∷ xs) queue x h = (cc h, cc h)
  drop-first (suc n) [] queue x h = absurd (cc h)
  drop-first (suc n) (y ∷ xs) queue x h = drop-first n xs queue x h

  drop-none : (n : ℕ) (xs : List E) → [] ≡ drop n xs → get_elem? xs n ≡ none
  drop-none zero [] h = refl
  drop-none zero (y ∷ xs) h = absurd (cc h)
  drop-none (suc n) [] h = refl
  drop-none (suc n) (y ∷ xs) h = drop-none n xs h

  behind :
      (limit : ℕ) (s : EventStream E) (l : Log E)
      → Shows limit s l
      → length l.events - l.position ≡ length s.queue
  behind limit s l r = sym (ap (λ (q : List E). length q) r.queue ∙ length-drop l.position l.events)

  grown :
      (queue : List E) (n : ℕ) (xs : List E) (e : E)
      → n ≤ length xs
      → queue ≡ drop n xs
      → queue ++ (e ∷ []) ≡ drop n (xs ++ (e ∷ []))
  grown queue n xs e p h = ap (λ q. q ++ (e ∷ [])) h ∙ sym (drop-append_le n xs (e ∷ []) p)

  longer : (xs : List E) (e : E) → length (xs ++ (e ∷ [])) ≡ length xs + 1
  longer xs e = omega (arith, length-append xs (e ∷ []))

  put_last-Shows :
      (limit : ℕ) (e : E) (s : EventStream E) (l : Log E)
      → Shows limit s l
      → length s.queue + 1 ≤ limit
      → Shows limit (put_last e s) (add_last e l)
  put_last-Shows limit e s l r room = record {
    queue = grown s.queue l.position l.events e r.inside r.queue;
    inside = omega (arith, r.inside, longer l.events e);
    dropped = r.dropped;
    closed = r.closed;
    maxsize = r.maxsize;
    small = omega (arith, room, longer s.queue e);
    awake = λ asleep. absurd (cc asleep);
  }

  put_full-Agree :
      (limit : ℕ) (e : E) (s : EventStream E) (l : Log E) (queue : List E)
      → s.queue ≡ queue
      → Shows limit s l
      → 1 ≤ limit
      → limit ≤ length queue
      → Agree limit
          (put_full e s queue)
          (done, add_last e (record l { position = l.position + 1; lost = l.lost + 1 }))
  put_full-Agree limit e s l [] whole r pos full = absurd (omega (arith, pos, full))
  put_full-Agree limit e s l (x ∷ queue) whole r pos full =
      let (first, rest) = drop-first l.position l.events queue x (sym whole ∙ r.queue) in
      let size : length s.queue ≡ length queue + 1 =
        omega (arith, ap (λ (q : List E). length q) whole) in
      let next_place : suc l.position ≡ l.position + 1 = omega arith in
      let shown : Shows limit (record s { queue = queue; dropped = s.dropped + 1 })
          (record l { position = l.position + 1; lost = l.lost + 1 }) =
        record {
          queue = rest ∙ ap (λ k. drop k l.events) next_place;
          inside = omega (arith, behind limit s l r, size);
          dropped = ap (λ n. n + 1) r.dropped;
          closed = r.closed;
          maxsize = r.maxsize;
          small = omega (arith, r.small, size);
          awake = λ asleep. absurd (cc (whole, (r.awake asleep).0));
        } in
      (refl, put_last-Shows limit e _ _ shown (omega (arith, r.small, size)))

  put-Agree :
      (limit : ℕ) (e : E) (s : EventStream E) (l : Log E)
      → Shows limit s l
      → 1 ≤ limit
      → Agree limit (put e s) (log_put limit e l)
  unfolding put
  put-Agree limit e s l r pos =
      tested-Agree limit _ _ (ap₂ leb r.maxsize (sym (behind limit s l r))) _ _ _ _
        (λ full. put_full-Agree limit e s l s.queue refl r pos (ground (arith, full, r.maxsize)))
        (λ room. (refl, put_last-Shows limit e s l r (ground (arith, room, r.maxsize))))

  take_first-Agree :
      (limit : ℕ) (s : EventStream E) (l : Log E) (queue : List E)
      → s.queue ≡ queue
      → s.closed ≡ false
      → Shows limit s l
      → Agree limit (take_first queue s) (read_at (get_elem? l.events l.position) l)
  take_first-Agree limit s l [] whole opened r =
      rw (drop-none l.position l.events (sym whole ∙ r.queue)) (
        refl,
        record {
          queue = r.queue;
          inside = r.inside;
          dropped = r.dropped;
          closed = r.closed;
          maxsize = r.maxsize;
          small = r.small;
          awake = λ asleep. (whole, opened);
        },
      )
  take_first-Agree limit s l (x ∷ queue) whole opened r =
      let (first, rest) = drop-first l.position l.events queue x (sym whole ∙ r.queue) in
      let size : length s.queue ≡ length queue + 1 =
        omega (arith, ap (λ (q : List E). length q) whole) in
      let next_place : suc l.position ≡ l.position + 1 = omega arith in
      rw first (
        refl,
        record {
          queue = rest ∙ ap (λ k. drop k l.events) next_place;
          inside = omega (arith, behind limit s l r, size);
          dropped = r.dropped;
          closed = r.closed;
          maxsize = r.maxsize;
          small = omega (arith, r.small, size);
          awake = λ asleep. absurd (cc (whole, (r.awake asleep).0));
        },
      )

  call-Agree :
      (limit : ℕ) (c : StreamCall E) (s : EventStream E) (l : Log E)
      → 1 ≤ limit
      → Shows limit s l
      → Agree limit (call c s) (log_call limit c l)
  unfolding call next close
  call-Agree limit (puts e) s l pos r = put-Agree limit e s l r pos
  call-Agree limit takes s l pos r =
      tested-Agree limit _ _ r.closed _ _ _ _ (λ over. (refl, r))
        (λ opened. take_first-Agree limit s l s.queue refl opened r)
  call-Agree limit closes s l pos r = (
    refl,
    record {
      queue = sym (drop-all (length l.events) l.events (omega arith));
      inside = omega arith;
      dropped = r.dropped;
      closed = refl;
      maxsize = r.maxsize;
      small = omega (arith, pos);
      awake = λ asleep. absurd (cc asleep);
    },
  )

  call_all-Agree :
      (limit : ℕ) (calls : List (StreamCall E)) (s : EventStream E) (l : Log E)
      → 1 ≤ limit
      → Shows limit s l
      → ((call_all calls s).0 ≡ (log_call_all limit calls l).0)
        × Shows limit ((call_all calls s).1) ((log_call_all limit calls l).1)
  unfolding call_all
  call_all-Agree limit [] s l pos r = (refl, r)
  call_all-Agree limit (c ∷ calls) s l pos r =
      let (same, r1) = call-Agree limit c s l pos r in
      let (sames, r2) = call_all-Agree limit calls _ _ pos r1 in
      (ap₂ (λ x xs. x ∷ xs) same sames, r2)

-- Any calls of a new stream whose queue may hold at least one event come to what a reader of the
-- record of all events comes to: it is given the events in order, and misses the oldest that it was
-- not given when it is `maxsize` behind; a reader of a closed stream stops. The queue is then what
-- the reader may still be given, at most `maxsize` events, `dropped` counts those that it missed, and
-- a reader that waits waits on an empty queue.
pub call_all-refines :
    {E : Type 0} (maxsize : ℕ) (calls : List (StreamCall E))
    → 1 ≤ maxsize
    → ((call_all calls (new_stream maxsize)).0 ≡ (log_call_all maxsize calls new_log).0)
      × Shows maxsize
          ((call_all calls (new_stream maxsize)).1)
          ((log_call_all maxsize calls new_log).1)
call_all-refines maxsize calls pos =
    call_all-Agree maxsize calls (new_stream maxsize) new_log pos (record {
      queue = refl;
      inside = omega arith;
      dropped = refl;
      closed = refl;
      maxsize = refl;
      small = omega arith;
      awake = λ asleep. (refl, refl);
    })
