-- ===== src/Sender/Skip.antt =====
-- The chunks that `send` of crates/sct-core/src/sender/mod.rs leaves out: those that the receiver
-- has noted, and those whose hash it sent and which are the same here.
pub mod Laws
use sc_transport.Base.{
  ℕ, Bool, true, false, not, ◌&&◌, Option, none, some, List, [], ◌∷◌, length, get_elem?, replicate,
  filter, range, ltb, ◌==◌, if◌then◌else◌, Result, ok, err, ◌>>=◌,
}
use sc_transport.Base.Bytes.{Bytes, same}
use sc_transport.Base.HashSet.{HashSet, contains, insert}
use sc_transport.Crates.{Crates}
use sc_transport.Wire.{ManifestAck}
use sc_transport.Sender.{SenderConfig, SendError, read_chunk_range}

-- `iter().copied().collect()` into a set
unfoldable pub collect : List ℕ → HashSet
collect [] = []
collect (x ∷ xs) = insert (collect xs) x

module _ (lib : Crates) (config : SenderConfig) (file : Bytes) (total_size : ℕ)
    (ack : ManifestAck) where
  -- one round of the loop over the indices
  unfoldable pub skip_chunk : ℕ → HashSet → Result SendError HashSet
  skip_chunk idx delta_skip =
      if contains delta_skip idx then ok delta_skip else elim (get_elem? ack.chunk_hashes idx) [
        | none ↦ ok delta_skip
        | some receiver_hash ↦ if same receiver_hash (replicate 32 0) then ok delta_skip else (do
          raw ← read_chunk_range config file idx total_size
          ok (
              if ltb 0 (length raw) && same (lib.hash raw) receiver_hash
              then insert delta_skip idx
              else delta_skip))
      ]

  unfoldable pub skip_chunks : List ℕ → HashSet → Result SendError HashSet
  skip_chunks [] delta_skip = ok delta_skip
  skip_chunks (idx ∷ indices) delta_skip = skip_chunk idx delta_skip >>= skip_chunks indices

  unfoldable pub skipped : ℕ → Result SendError HashSet
  skipped num_chunks =
      let skip = collect ack.received_chunks in
      if length ack.chunk_hashes == 0 then ok skip else skip_chunks (range num_chunks) skip

-- The indices whose chunks `send_adaptive` reads and sends, in its order.
unfoldable pub sent_indices : ℕ → HashSet → List ℕ
sent_indices num_chunks skip = filter (λ idx. not (contains skip idx)) (range num_chunks)
