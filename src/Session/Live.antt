-- ===== src/Session/Live.antt =====
-- Tag 54 is written so that it follows the viewers, but for a calibration, which leaves it alone.
use ms605_ble.Prelude.{
  List, [], ◌∷◌, ◌+◌, ◌-◌, Option, none, some, Bool, true, false, not, ◌&&◌, ◌==◌, ltb,
  if◌then◌else◌, Result, ◌≡◌, refl, arith,
}
use ms605_ble.Events.{is_connected}
use ms605_ble.Session.{
  Reason, calibration, another, DeviceSession, new_session, is_calibrating, may_write, acquire_live,
  release_live, take_lock, begin_operation, same_flag, resync_live, drop_lock, end_operation, lose,
  can_connect, establish, close_session, SessionCall, acquires, releases, begins, ends, loses,
  connects, closes, perform_call,
}

-- The device acknowledges the writes of a call, and no link comes up while a calibration has the lock.
abbrev pub IsOrderly : SessionCall → DeviceSession → Type 0
IsOrderly (acquires acked) s = acked ≡ true
IsOrderly (releases acked) s = acked ≡ true
IsOrderly (begins reason) s = Unit {0}
IsOrderly (ends acked) s = acked ≡ true
IsOrderly loses s = Unit {0}
IsOrderly (connects comes_up acked) s = (acked ≡ true) × (is_calibrating s.busy ≡ false)
IsOrderly closes s = Unit {0}

-- The sessions that orderly calls lead to.
pub data Reachable : DeviceSession → Type 0 where
  start : Reachable new_session
  call :
      {s : DeviceSession} (c : SessionCall)
      → IsOrderly c s
      → Reachable s
      → Reachable (perform_call c s)

-- The value of tag 54 that was written last, or 0 on a link where none was written.
abbrev pub last_tag54 : List Bool → Bool
last_tag54 [] = false
last_tag54 (enabled ∷ earlier) = enabled

-- On a link, tag 54 was last written as it is wanted, or, while a calibration has the lock, as it was
-- wanted when this began.
pub record IsSynced (s : DeviceSession) : Type 0 where
  pub free :
      is_connected s.state ≡ true
      → is_calibrating s.busy ≡ false
      → last_tag54 s.tag54_writes ≡ ltb 0 s.live
  pub held :
      is_connected s.state ≡ true
      → is_calibrating s.busy ≡ true
      → last_tag54 s.tag54_writes ≡ s.live_before

if-IsSynced :
    (b : Bool) (x y : DeviceSession)
    → (b ≡ true → IsSynced x)
    → (b ≡ false → IsSynced y)
    → IsSynced (if b then x else y)
if-IsSynced true x y p q = p refl
if-IsSynced false x y p q = q refl

if-ends-IsSynced :
    (b : Bool) (x y : Result (Unit {0}) × DeviceSession)
    → (b ≡ true → IsSynced (x.1))
    → (b ≡ false → IsSynced (y.1))
    → IsSynced ((if b then x else y).1)
if-ends-IsSynced true x y p q = p refl
if-ends-IsSynced false x y p q = q refl

acquire_live-IsSynced : (s : DeviceSession) → IsSynced s → IsSynced (acquire_live true s)
unfolding acquire_live
acquire_live-IsSynced s h =
    if-IsSynced (s.live + 1 == 1 && may_write s) _ _
      (λ first. record {
        free = λ up off. ground arith;
        held = λ up on. absurd (ground (arith, first, on));
      })
      (λ later. record {
        free = λ up off. ground (arith, later, up, off, h.free up off);
        held = h.held;
      })

release_live-IsSynced : (s : DeviceSession) → IsSynced s → IsSynced (release_live true s)
unfolding release_live
release_live-IsSynced s h =
    if-IsSynced (s.live == 0) _ _ (λ nobody. h)
      (λ somebody.
        if-IsSynced (s.live - 1 == 0 && may_write s) _ _
          (λ last. record {
            free = λ up off. ground (arith, last);
            held = λ up on. absurd (ground (arith, last, on));
          })
          (λ more. record {
            free = λ up off. ground (arith, somebody, more, up, off, h.free up off);
            held = h.held;
          }))

take_lock-IsSynced :
    (held : Option Reason) (reason : Reason) (s : DeviceSession)
    → s.busy ≡ held
    → IsSynced s
    → IsSynced ((take_lock held reason s).1)
take_lock-IsSynced (some r) reason s e h = h
take_lock-IsSynced none reason s e h =
    if-ends-IsSynced (not (is_connected s.state)) _ _ (λ down. h)
      (λ up. record {
        free = λ up off. h.free up (ground (arith, e));
        held = λ up on. h.free up (ground (arith, e));
      })

drop_lock-IsSynced :
    (held : Option Reason) (s : DeviceSession)
    → s.busy ≡ held
    → IsSynced s
    → IsSynced (drop_lock held true s)
unfolding resync_live
drop_lock-IsSynced none s e h = h
drop_lock-IsSynced (some another) s e h = record {
  free = λ up off. h.free up (ground (arith, e));
  held = λ up on. absurd (cc on);
}
drop_lock-IsSynced (some calibration) s e h =
    if-IsSynced (same_flag (ltb 0 s.live) s.live_before) _ _
      (λ same. record {
        free = λ up off. ground (arith, same, h.held up (ground (arith, e)));
        held = λ up on. absurd (cc on);
      })
      (λ changed.
        if-IsSynced (not (is_connected s.state)) _ _
          (λ down. record {
            free = λ up off. absurd (ground (arith, down, up));
            held = λ up on. absurd (cc on);
          })
          (λ up. record { free = λ up off. refl; held = λ up on. absurd (cc on) }))

lose-IsSynced : (s : DeviceSession) → IsSynced s → IsSynced (lose s)
unfolding lose
lose-IsSynced s h =
    if-IsSynced (is_connected s.state) _ _
      (λ up. record { free = λ up off. absurd (cc up); held = λ up on. absurd (cc up) }) (λ down. h)

establish-IsSynced :
    (comes_up : Bool) (s : DeviceSession)
    → is_calibrating s.busy ≡ false
    → IsSynced s
    → IsSynced ((establish comes_up true s).1)
unfolding establish
establish-IsSynced comes_up s unlocked h =
    if-ends-IsSynced (not (can_connect s.state)) _ _ (λ refused. h)
      (λ allowed.
        if-ends-IsSynced (not comes_up) _ _ (λ failed. h)
          (λ up.
            if-IsSynced (ltb 0 s.live && not (is_calibrating s.busy)) _ _
              (λ wanted. record {
                free = λ up off. ground (arith, wanted);
                held = λ up on. absurd (ground (arith, unlocked, on));
              })
              (λ unwanted. record {
                free = λ up off. ground (arith, unwanted, off);
                held = λ up on. absurd (ground (arith, unlocked, on));
              })))

perform_call-IsSynced :
    (c : SessionCall) (s : DeviceSession) → IsOrderly c s → IsSynced s → IsSynced (perform_call c s)
unfolding perform_call begin_operation end_operation close_session
perform_call-IsSynced (acquires acked) s o h = rw o (acquire_live-IsSynced s h)
perform_call-IsSynced (releases acked) s o h = rw o (release_live-IsSynced s h)
perform_call-IsSynced (begins reason) s o h = take_lock-IsSynced s.busy reason s refl h
perform_call-IsSynced (ends acked) s o h = rw o (drop_lock-IsSynced s.busy s refl h)
perform_call-IsSynced loses s o h = lose-IsSynced s h
perform_call-IsSynced (connects comes_up acked) s (o, unlocked) h =
    rw o (establish-IsSynced comes_up s unlocked h)
perform_call-IsSynced closes s o h = record {
  free = λ up off. absurd (cc up);
  held = λ up on. absurd (cc up);
}

-- However a session is used, where the device acknowledges the writes of tag 54 and no link comes up
-- while a calibration has the lock: on a link, the tag 54 written last on it is 1 exactly if there is
-- a viewer, where it counts as 0 if none was written. While a calibration has the lock it is instead
-- 1 exactly if there was a viewer when the lock was taken. Of what the device sends during a
-- calibration nothing is said.
pub reachable-IsSynced : (s : DeviceSession) → Reachable s → IsSynced s
reachable-IsSynced s start = record {
  free = λ up off. absurd (cc up);
  held = λ up on. absurd (cc up);
}
reachable-IsSynced s (call {s = before} c o r) =
    perform_call-IsSynced c before o (reachable-IsSynced before r)
