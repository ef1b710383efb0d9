-- ===== src/Session/Tests.antt =====
-- Viewers that come and go around a calibration.
use ms605_ble.Prelude.{[], ◌∷◌, none, true, false, ◌≡◌, refl}
use ms605_ble.Events.{LinkState}
use ms605_ble.Session.{
  calibration, DeviceSession, new_session, acquires, releases, begins, ends, loses, connects,
  perform_call, acquire_live, release_live, begin_operation, end_operation, resync_live, establish,
  lose,
}
use ms605_ble.Session.Live.{start, call, IsSynced, reachable-IsSynced}

-- Someone watches, a calibration takes the lock, and the viewer leaves before it ends.
abbrev watched : DeviceSession
watched = perform_call (acquires true) (perform_call (connects true true) new_session)

abbrev ended : DeviceSession
ended =
    perform_call (ends true)
      (perform_call (releases true) (perform_call (begins calibration) watched))

ended-writes : ended.tag54_writes ≡ false ∷ true ∷ []
unfolding perform_call acquire_live release_live begin_operation end_operation resync_live establish
ended-writes = refl

reachable-IsSynced_example : IsSynced ended
reachable-IsSynced_example = reachable-IsSynced ended (
    call (ends true) refl (
      call (releases true) refl (
        call (begins calibration) tt
          (call (acquires true) refl (call (connects true true) (refl, refl) start)))))

-- Where the link is lost and comes up again while the calibration still has the lock, nothing writes
-- tag 54 for the viewer.
abbrev relinked : DeviceSession
relinked = perform_call (ends true) (
    perform_call (connects true true)
      (perform_call loses (perform_call (begins calibration) watched)))

relinked-unwritten :
    (relinked.live ≡ 1)
    × (relinked.state ≡ LinkState.connected)
    × (relinked.busy ≡ none)
    × (relinked.tag54_writes ≡ [])
unfolding perform_call acquire_live begin_operation end_operation resync_live establish lose
relinked-unwritten = (refl, refl, refl, refl)
