-- ===== src/Tests/Reorder.antt =====
-- The reorder buffer at work: three packets, the last first, one of them twice.
use sc_transport.Base.{ℕ, ◌≡◌, ◌+◌, false, none, List, [], ◌∷◌, length, map, range_from}
use sc_transport.Packet.{Packet}
use sc_transport.Reorder.{empty_buffer, find_seq, reassemble_ready}
use sc_transport.Reorder.Laws.{ingest_all, reassemble_ready-in_order}

abbrev packet : ℕ → ℕ → Packet
packet id seq = record {
  id = id;
  seq = seq;
  payload = id ∷ [];
  is_parity = false;
  meta = record { id = id; priority = 1; deadline = none; size = 1 };
  fec_group = 0;
  reconstructable = false;
  parity_index = 0;
}

abbrev arrived : List Packet
arrived = packet 12 2 ∷ packet 10 0 ∷ packet 12 2 ∷ packet 11 1 ∷ packet 15 5 ∷ []

reassemble_ready-in_order_example :
    (map (λ (p : Packet). p.seq) (reassemble_ready (ingest_all empty_buffer arrived)).0
      ≡ range_from
          (ingest_all empty_buffer arrived).next_seq
          (length (reassemble_ready (ingest_all empty_buffer arrived)).0))
    × ((reassemble_ready (ingest_all empty_buffer arrived)).1.next_seq
        ≡ (ingest_all empty_buffer arrived).next_seq
          + length (reassemble_ready (ingest_all empty_buffer arrived)).0)
    × (find_seq
          (reassemble_ready (ingest_all empty_buffer arrived)).1.received
          (reassemble_ready (ingest_all empty_buffer arrived)).1.next_seq
        ≡ none)
reassemble_ready-in_order_example = reassemble_ready-in_order empty_buffer arrived tt
