-- ===== src/Reorder.antt =====
-- `ReorderBuffer` of crates/sct-core/src/adaptive/mod.rs: packets come in any order, each id once, and
-- go out in the order of their sequence numbers.
pub mod Laws
use sc_transport.Base.{
  ℕ, zero, suc, ◌+◌, Bool, Option, none, some, List, [], ◌∷◌, length, leb, ◌==◌, if◌then◌else◌,
  is_some,
}
use sc_transport.Base.HashMap
use sc_transport.Base.HashMap.{HashMap}
use sc_transport.Packet.{Packet}

pub record ReorderBuffer : Type 0 where
  pub received : HashMap Packet
  pub next_seq : ℕ
  pub seen : HashMap (Unit {0})
  pub max_seen : ℕ

abbrev pub empty_buffer : ReorderBuffer
empty_buffer = record { received = []; next_seq = 0; seen = []; max_seen = 65536 }

unfoldable pub ingest : ReorderBuffer → Packet → ReorderBuffer
ingest b packet =
    let seen = if leb b.max_seen (length b.seen) then [] else b.seen in
    if is_some (HashMap.get b.seen packet.id) then b else record b {
      seen = HashMap.put seen packet.id tt;
      received = HashMap.put b.received packet.id packet;
    }

-- the id of some packet with the sequence number
unfoldable pub find_seq : HashMap Packet → ℕ → Option ℕ
find_seq [] seq = none
find_seq ((id, p) ∷ received) seq = if p.seq == seq then some id else find_seq received seq

-- The loop of `reassemble_ready`, with as many rounds as there are packets.
unfoldable pub reassemble : ℕ → HashMap Packet → ℕ → List Packet × HashMap Packet × ℕ
reassemble zero received next_seq = ([], received, next_seq)
reassemble (suc rounds) received next_seq = elim (find_seq received next_seq) [
  | none ↦ ([], received, next_seq)
  | some id ↦ elim (HashMap.get received id) [
    | none ↦ reassemble rounds received next_seq
    | some pkt ↦
        let (out, left, next) = reassemble rounds (HashMap.remove received id) (next_seq + 1) in
        (pkt ∷ out, left, next)
  ]
]

unfoldable pub reassemble_ready : ReorderBuffer → List Packet × ReorderBuffer
reassemble_ready b =
    let (out, received, next_seq) = reassemble (length b.received) b.received b.next_seq in
    (out, record b { received = received; next_seq = next_seq })
