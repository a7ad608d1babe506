-- ===== src/Tests/Pipeline.antt =====
-- Packets that become blocks with parity: three packets of two groups, of which one is complete.
use sc_transport.Base.{ℕ, ◌≡◌, refl, arith, true, false, none, some, List, [], ◌∷◌, leb}
use sc_transport.Base.Count.{count}
use sc_transport.Base.HashSet.{contains, IsDistinct}
use sc_transport.Packet.{Packet}
use sc_transport.Parity.{
  FecEncoder, position, positions, sort_descending, insert_descending, remove_at, remove_all,
  drain_block,
}
use sc_transport.Parity.Stash.{seqs}
use sc_transport.Parity.Drain.{IsDrained, group_indices, drain_block_complete}
use sc_transport.Pipeline.{fec_for, drain_blocks, encode_task}
use sc_transport.Pipeline.Block.{data_of}
use sc_transport.Pipeline.Drain.{drain_blocks_ends}
use sc_transport.Pipeline.Flush.{encode_task-data}
use sc_transport.Tests.Rs.{toy_rs}

abbrev small_packet : ℕ → ℕ → Packet
small_packet i group = record {
  id = i;
  seq = i;
  payload = i ∷ [];
  is_parity = false;
  meta = record { id = i; priority = 1; deadline = none; size = 1 };
  fec_group = group;
  reconstructable = false;
  parity_index = 0;
}

abbrev pub came : List Packet
came = small_packet 1 0 ∷ small_packet 2 1 ∷ small_packet 0 0 ∷ []

abbrev pub pairs : FecEncoder
pairs = record { data_shards = 2; parity_shards = 1 }

came-IsDistinct : IsDistinct (seqs came)
unfolding contains
came-IsDistinct = (refl, (refl, (refl, tt)))

encode_task-data_example :
    count
      (data_of (λ p. leb 1 p.seq))
      (encode_task toy_rs (fec_for pairs 1 []) (λ groups. groups) came)
    ≡ 2
encode_task-data_example =
    encode_task-data toy_rs (fec_for pairs 1 []) (λ groups. groups) came (λ groups g. refl) refl
      came-IsDistinct (λ p. leb 1 p.seq)

drain_blocks_ends_example : drain_block (drain_blocks toy_rs 4 came 0 pairs).1 0 pairs ≡ none
drain_blocks_ends_example = drain_blocks_ends toy_rs 0 pairs 4 came (omega arith) (omega arith)

group_came :
    (idx : ℕ) → contains (group_indices pairs 0) idx ≡ true → contains (seqs came) idx ≡ true
unfolding contains
group_came idx h = ground arith

drain_block_complete_example :
    (block : List Packet) × ((left : List Packet) × IsDrained came 0 pairs block left)
drain_block_complete_example = drain_block_complete came 0 pairs group_came

-- the code of the tests that run
draining : Unit {0}
unfolding drain_block positions position sort_descending insert_descending remove_all remove_at
draining = tt

drained_pair :
    drain_block came 0 pairs
    ≡ some (small_packet 0 0 ∷ small_packet 1 0 ∷ [], small_packet 2 1 ∷ [])
unfolding draining
drained_pair = refl
