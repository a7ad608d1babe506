-- ===== src/Telemetry/Batch/Laws.antt =====
-- The counts of a batch are those of its events.
use sc_transport.Base.{
  ℕ, zero, suc, ◌≤◌, ◌-◌, ◌≡◌, refl, ap, ◌∙◌, arith, List, [], ◌∷◌, ◌++◌, length, length-drop, take,
  drop, take-append-drop, length-append,
}
use sc_transport.Base.Float.{Float}
use sc_transport.Wire.Codec.{Codec}
use sc_transport.Telemetry.{TelemetryEvent}
use sc_transport.Telemetry.Batch.{
  BatchSender, chunks_within, chunks, Fate, batch_chunk_size, send_chunk, join_all, send_batch,
}

abbrev pub concat : {A : Type 0} → List (List A) → List A
concat [] = []
concat (xs ∷ xss) = xs ++ concat xss

-- With a positive size, the chunks are the list.
concat-chunks_within :
    {A : Type 0} (fuel n : ℕ) (events : List A)
    → length events ≤ fuel
    → concat (chunks_within fuel (suc n) events) ≡ events
unfolding chunks_within
concat-chunks_within zero n [] h = refl
concat-chunks_within zero n (event ∷ events) h = absurd (omega arith)
concat-chunks_within (suc fuel) n [] h = refl
concat-chunks_within (suc fuel) n (event ∷ events) h =
    ap (λ t. take (suc n) (event ∷ events) ++ t)
      (concat-chunks_within fuel n (drop n events) (omega (arith, length-drop n events)))
    ∙ take-append-drop (suc n) (event ∷ events)

module _ {V : Type 0} (codec : Codec (TelemetryEvent V)) where
  send_chunk-bound :
      (fate : Fate) (chunk : List (TelemetryEvent V))
      → let (sent, failed) = send_chunk codec fate chunk in
        (sent ≤ length chunk) × (failed ≤ 1) × (failed ≡ 0 → sent ≡ length chunk)
  unfolding send_chunk
  send_chunk-bound fate chunk = ground arith

  join_all-bound :
      (fates : ℕ → Fate) (i : ℕ) (all : List (List (TelemetryEvent V)))
      → let (sent, failed) = join_all codec fates i all in
        (sent ≤ length (concat all)) × (failed ≤ length all)
  unfolding join_all
  join_all-bound fates i [] = ground arith
  join_all-bound fates i (chunk ∷ rest) = ground (
    arith,
    send_chunk-bound (fates i) chunk,
    join_all-bound fates (suc i) rest,
    length-append chunk (concat rest),
  )

  batch_chunk_size-le :
      (sender : BatchSender) (events : List (TelemetryEvent V))
      → batch_chunk_size codec sender events ≡ suc (batch_chunk_size codec sender events - 1)
  unfolding batch_chunk_size
  batch_chunk_size-le sender [] = omega arith
  batch_chunk_size-le sender (event ∷ events) = ground arith

  batch_chunk_size-pos :
      (sender : BatchSender) (events : List (TelemetryEvent V))
      → (n : ℕ) × (batch_chunk_size codec sender events ≡ suc n)
  unfolding batch_chunk_size
  batch_chunk_size-pos sender events =
      (batch_chunk_size codec sender events - 1, (batch_chunk_size-le sender events))

  module _ (float : Float) (sender : BatchSender) (fates : ℕ → Fate) (elapsed : float.F64)
      (events : List (TelemetryEvent V)) where
    concat-chunks : concat (chunks (batch_chunk_size codec sender events) events) ≡ events
    unfolding chunks
    concat-chunks =
        let (n, size) = batch_chunk_size-pos sender events in
        rw size (concat-chunks_within (length events) n events (omega arith))

    pub send_batch-counts :
        let result = send_batch codec float sender fates elapsed events in
        (result.total_events ≡ length events)
        × (result.sent_events ≤ length events)
        × (result.failed_chunks ≤ length (chunks (batch_chunk_size codec sender events) events))
    unfolding send_batch
    send_batch-counts =
        let all = chunks (batch_chunk_size codec sender events) events in
        (
          refl,
          omega (arith, join_all-bound fates 0 all, ap length concat-chunks),
          (join_all-bound fates 0 all).1,
        )
