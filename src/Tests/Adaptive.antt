-- ===== src/Tests/Adaptive.antt =====
-- The packets of the sample file.
use sc_transport.Base.{◌≤◌, ◌≡◌, refl, List, [], ◌∷◌, ◌++◌, some, length, ok, err}
use sc_transport.Base.Bytes.{to_be_bytes}
use sc_transport.Base.HashSet.{contains}
use sc_transport.Wire.Frame.{encode}
use sc_transport.Compress.{maybe_compress, is_likely_compressed}
use sc_transport.Packet.{Packet}
use sc_transport.Sender.{
  build_chunk_payload, read_chunk_range, frame_chunk, frame_bytes, chunk_descriptor, chunk_len,
}
use sc_transport.Sender.Adaptive.{data_packets, make_data_packet, push_nack_retransmits}
use sc_transport.Sender.Adaptive.Laws.{
  AreOf, AllFresh, Subset, noted, data_packets-filter, push_nack_retransmits-AllFresh,
}
use sc_transport.Tests.Samples.{toy, file, sender_config, manifest}

-- the chunk 1 is left out
abbrev packets : List Packet
unfolding data_packets make_data_packet build_chunk_payload read_chunk_range frame_chunk frame_bytes
    chunk_descriptor chunk_len encode maybe_compress is_likely_compressed contains to_be_bytes
packets = elim (data_packets toy sender_config file 9 manifest (1 ∷ []) 50 (0 ∷ 1 ∷ 2 ∷ [])) [
  | ok ps ↦ ps
  | err _ ↦ []
]

made : data_packets toy sender_config file 9 manifest (1 ∷ []) 50 (0 ∷ 1 ∷ 2 ∷ []) ≡ ok packets
unfolding packets data_packets make_data_packet build_chunk_payload read_chunk_range frame_chunk
    frame_bytes chunk_descriptor chunk_len encode maybe_compress is_likely_compressed contains
    to_be_bytes
made = refl

data_packets-filter_example :
    AreOf toy sender_config file 9 manifest (1 ∷ []) 50 (0 ∷ 2 ∷ []) packets
unfolding contains
data_packets-filter_example =
    data_packets-filter toy sender_config file 9 manifest (1 ∷ []) 50 (0 ∷ 1 ∷ 2 ∷ []) made

push_nack_retransmits-AllFresh_example :
    let t =
      push_nack_retransmits toy sender_config file 9 manifest
        (1 ∷ [])
        50
        (some (2 ∷ 1 ∷ 0 ∷ 0 ∷ []))
        ([], 2 ∷ []) in
    (added : List Packet) × (t.0 ≡ [] ++ added)
    × (length added ≤ 8)
    × AllFresh toy sender_config file 9 manifest (1 ∷ []) 50 (2 ∷ []) added
    × Subset toy sender_config file 9 manifest
        (1 ∷ [])
        50
        (noted toy sender_config file 9 manifest (1 ∷ []) 50 (2 ∷ []) added)
        t.1
push_nack_retransmits-AllFresh_example =
    push_nack_retransmits-AllFresh toy sender_config file 9 manifest (1 ∷ []) 50
      (2 ∷ 1 ∷ 0 ∷ 0 ∷ []) [] (2 ∷ [])
