-- ===== src/Telemetry/Sse/Laws.antt =====
-- What the channels of the fan-out take.
use text.Mathlib.Text.{◌==◌}
use text.Mathlib.TextPositions.{eq_refl}
use text.Mathlib.TextEquality.{eq_iff}
use sc_transport.Base.{
  ◌≡◌, refl, sym, ap, String, false, some, Option-cases, Bool-cases, ◌∙◌, inl, inr, List, [], ◌∷◌,
  ◌++◌, if◌then◌else◌, append-nil, append_assoc,
}
use sc_transport.Base.StringMap
use sc_transport.Base.StringMap.{StringMap, get-put}
use sc_transport.Telemetry.Sse.{Broadcast, HttpSse, channel_for_run, send_event, subscribe}

module _ {E : Type 0} (bus : Broadcast E) where
  open bus use {Channel}

  channel_for_run-get :
      (s : HttpSse Channel) (run : String)
      → StringMap.get (channel_for_run bus s run).0.channels run
        ≡ some (channel_for_run bus s run).1
  unfolding channel_for_run
  channel_for_run-get s run = elim (Option-cases (StringMap.get s.channels run)) [
    | inl new ↦ rw (channel_for_run, new) (rw (get-put s.channels run run bus.channel, eq_refl run))
    | inr (tx, old) ↦ rw (channel_for_run, old) old
  ]

  channel_for_run_other :
      (s : HttpSse Channel) (run other : String)
      → (run == other) ≡ false
      → StringMap.get (channel_for_run bus s run).0.channels other ≡ StringMap.get s.channels other
  unfolding channel_for_run
  channel_for_run_other s run other apart = elim (Option-cases (StringMap.get s.channels run)) [
    | inl new ↦
        rw (channel_for_run, new) (rw (get-put s.channels run other bus.channel, apart) refl)
    | inr (tx, old) ↦ rw (channel_for_run, old) refl
  ]

  -- Sending to a run touches no other run's channel.
  pub send_event_other :
      (s : HttpSse Channel) (run other : String) (event : E)
      → (run == other) ≡ false
      → StringMap.get (send_event bus s run event).0.channels other ≡ StringMap.get s.channels other
  unfolding send_event
  send_event_other s run other event apart =
      let (s', tx) = channel_for_run bus s run in
      elim (Option-cases (bus.send tx event)) [
        | inl closed ↦ rw (send_event, closed) (channel_for_run_other s run other apart)
        | inr (tx', went) ↦
            rw (send_event, went)
              (rw (get-put s'.channels run other tx', apart)
                (channel_for_run_other s run other apart))
      ]

  -- the channel of a run that is subscribed to
  subscribe-get :
      (s : HttpSse Channel) (run : String)
      → StringMap.get (subscribe bus s run).channels run
        ≡ some (bus.subscribe (channel_for_run bus s run).1)
  unfolding subscribe
  subscribe-get s run =
      let (s', tx) = channel_for_run bus s run in
      rw (get-put s'.channels run run (bus.subscribe tx), eq_refl run) refl

  channel_for_run_old :
      (s : HttpSse Channel) (run : String) {tx : Channel}
      → StringMap.get s.channels run ≡ some tx
      → channel_for_run bus s run ≡ (s, tx)
  unfolding channel_for_run
  channel_for_run_old s run old = rw (channel_for_run, old) refl

  -- What tokio documents of a channel: it can be heard once it is subscribed to, and then takes
  -- what is sent, for each of its receivers, behind what it took before. (A receiver that lags
  -- behind by more than the channel's 1024 places loses the oldest, which its task reports.)
  pub record Hears : Type 1 where
    pub heard : Channel → List E
    pub IsOpen : Channel → Type 0
    pub subscribe-IsOpen : (tx : Channel) → IsOpen (bus.subscribe tx)
    pub send_takes :
        (tx : Channel) (event : E)
        → IsOpen tx
        → (tx' : Channel) × (bus.send tx event ≡ some tx')
          × IsOpen tx'
          × (heard tx' ≡ heard tx ++ (event ∷ []))

  -- one event after the other, each to its run
  abbrev pub send_events : HttpSse Channel → List (String × E) → HttpSse Channel
  send_events s [] = s
  send_events s ((run, event) ∷ sends) = send_events (send_event bus s run event).0 sends

  abbrev pub events_of : String → List (String × E) → List E
  events_of run [] = []
  events_of run ((other, event) ∷ sends) =
      if other == run then event ∷ events_of run sends else events_of run sends

  send_event-get :
      (s : HttpSse Channel) (run : String) (event : E) {tx tx' : Channel}
      → StringMap.get s.channels run ≡ some tx
      → bus.send tx event ≡ some tx'
      → StringMap.get (send_event bus s run event).0.channels run ≡ some tx'
  unfolding send_event
  send_event-get s run event {tx' = tx'} old went =
      rw (send_event, channel_for_run_old s run old, went)
        (rw (get-put (channel_for_run bus s run).0.channels run run tx', eq_refl run) refl)

  module _ (hears : Hears) where
    open hears use {heard, IsOpen}

    heard-send_events :
        (s : HttpSse Channel) (run : String) (sends : List (String × E)) {tx : Channel}
        → StringMap.get s.channels run ≡ some tx
        → IsOpen tx
        → (tx' : Channel) × (StringMap.get (send_events s sends).channels run ≡ some tx')
          × (heard tx' ≡ heard tx ++ events_of run sends)
    heard-send_events s run [] {tx} there open_tx = (tx, there, sym (append-nil (heard tx)))
    heard-send_events s run ((other, event) ∷ sends) {tx} there open_tx =
        elim (Bool-cases (other == run)) [
          | inl own ↦
              let same : other ≡ run = (eq_iff other run).0 own in
              let (next, went, open_next, logged) = hears.send_takes tx event open_tx in
              let (tx', later, more) =
                heard-send_events (send_event bus s other event).0 run sends {tx = next}
                  (rw same (send_event-get s run event there went)) open_next in
              (
                tx',
                later,
                rw own (
                    more
                    ∙ ap (λ l. l ++ events_of run sends) logged
                    ∙ append_assoc (heard tx) (event ∷ []) (events_of run sends)),
              )
          | inr apart ↦
              let (tx', later, more) =
                heard-send_events (send_event bus s other event).0 run sends {tx = tx}
                  (send_event_other s other run event apart ∙ there) open_tx in
              (tx', later, rw apart more)
        ]

    -- If channels behave as tokio documents: after a subscription to a run, whatever is sent to
    -- this run and to others, in whichever order, the channel of the run has taken what it had
    -- taken before, and behind it the events of the run, all of them, in their order, and no
    -- other.
    pub send_events-subscribe :
        (s : HttpSse Channel) (run : String) (sends : List (String × E))
        → (tx : Channel) × (StringMap.get (send_events (subscribe bus s run) sends).channels run
            ≡ some tx)
          × (heard tx ≡ heard (bus.subscribe (channel_for_run bus s run).1) ++ events_of run sends)
    send_events-subscribe s run sends =
        heard-send_events (subscribe bus s run) run sends (subscribe-get s run)
          (hears.subscribe-IsOpen (channel_for_run bus s run).1)
