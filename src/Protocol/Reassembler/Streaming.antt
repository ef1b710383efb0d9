-- ===== src/Protocol/Reassembler/Streaming.antt =====
-- How a stream is cut into chunks does not matter to the reassembler.
use ms605_ble.Prelude.{
  ℕ, List, [], ◌∷◌, ◌++◌, concat, ◌≡◌, refl, sym, ap, ◌∙◌, subst, append_assoc, append-nil,
}
use ms605_ble.Protocol.Reassembler.{round, stop, feed, feed_all}
use ms605_ble.Protocol.Reassembler.Rounds.{round-skip, round-emit, round-resume}
use ms605_ble.Protocol.Reassembler.Drains.{
  Drains, stopped, skipped, emitted, feed-Drains, Drains-unique,
}

Drains-round :
    (b b' : List ℕ) {frames : List (List ℕ)} {last : List ℕ}
    → round b ≡ round b'
    → Drains b' frames last
    → Drains b frames last
Drains-round b b' e (stopped h) = stopped (e ∙ h)
Drains-round b b' e (skipped left h d) = skipped left (e ∙ h) d
Drains-round b b' e (emitted frame left h d) = emitted frame left (e ∙ h) d

-- Draining, and draining again once more has arrived, is draining it all at once.
pub Drains-append :
    (y : List ℕ) {b m last : List ℕ} {frames later : List (List ℕ)}
    → Drains b frames m
    → Drains (m ++ y) later last
    → Drains (b ++ y) (frames ++ later) last
Drains-append y {b} {m} (stopped h) k = Drains-round (b ++ y) (m ++ y) (round-resume b y m h) k
Drains-append y {b} (skipped left h d) k =
    skipped (left ++ y) (round-skip b y left h) (Drains-append y d k)
Drains-append y {b} (emitted frame left h d) k =
    emitted frame (left ++ y) (round-emit b y frame left h) (Drains-append y d k)

-- Feeding two chunks is feeding them joined: the same frames in the same order, and the same buffer.
pub feed-append :
    (buffer x y : List ℕ)
    → let (frames, left) = feed buffer x in
      let (later, last) = feed left y in
      (frames ++ later ≡ (feed buffer (x ++ y)).0) × (last ≡ (feed buffer (x ++ y)).1)
feed-append buffer x y =
    let (frames, left) = feed buffer x in
    Drains-unique
      (subst (λ b. Drains b (frames ++ (feed left y).0) (feed left y).1) (append_assoc buffer x y)
        (Drains-append y (feed-Drains buffer x) (feed-Drains left y)))
      (feed-Drains buffer (x ++ y))

-- A buffer with nothing more to find in it.
abbrev pub Settled : List ℕ → Type 0
Settled b = round b ≡ stop b

Drains-Settled : {b last : List ℕ} {frames : List (List ℕ)} → Drains b frames last → Settled last
Drains-Settled {b} {last} (stopped h) =
    ap round (sym (append-nil last)) ∙ sym (round-resume b [] last h) ∙ ap round (append-nil b) ∙ h
Drains-Settled (skipped left h d) = Drains-Settled d
Drains-Settled (emitted frame left h d) = Drains-Settled d

feed_all-concat :
    (buffer : List ℕ) (chunks : List (List ℕ))
    → Settled buffer
    → Drains (buffer ++ concat chunks) (feed_all buffer chunks).0 (feed_all buffer chunks).1
unfolding feed_all
feed_all-concat buffer [] s = subst (λ b. Drains b [] buffer) (sym (append-nil buffer)) (stopped s)
feed_all-concat buffer (chunk ∷ chunks) s =
    let (frames, left) = feed buffer chunk in
    let d = feed-Drains buffer chunk in
    subst (λ b. Drains b (frames ++ (feed_all left chunks).0) (feed_all left chunks).1)
      (append_assoc buffer chunk (concat chunks))
      (Drains-append (concat chunks) d (feed_all-concat left chunks (Drains-Settled d)))

pub Settled-nil : Settled []
unfolding round
Settled-nil = refl

pub feed_all-Drains :
    (chunks : List (List ℕ)) → Drains (concat chunks) (feed_all [] chunks).0 (feed_all [] chunks).1
feed_all-Drains chunks = feed_all-concat [] chunks Settled-nil

-- From a fresh reassembler, two ways to cut the same stream into chunks give the same frames in the
-- same order, and leave the same buffer, whatever the stream holds.
pub feed_all-same_stream :
    (chunks chunks' : List (List ℕ))
    → concat chunks ≡ concat chunks'
    → ((feed_all [] chunks).0 ≡ (feed_all [] chunks').0)
      × ((feed_all [] chunks).1 ≡ (feed_all [] chunks').1)
feed_all-same_stream chunks chunks' e =
    Drains-unique
      (subst (λ b. Drains b (feed_all [] chunks).0 (feed_all [] chunks).1) e
        (feed_all-Drains chunks))
      (feed_all-Drains chunks')
