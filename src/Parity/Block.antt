-- ===== src/Parity/Block.antt =====
-- The data rows of a block of packets, which all have the length of the longest payload.
use sc_transport.Base.{
  ℕ, zero, suc, ◌≤◌, ◌≡◌, ap, arith, some, List, [], ◌∷◌, ◌++◌, map, length, get_elem?,
}
use sc_transport.Base.Bytes.{Bytes, resize}
use sc_transport.Packet.{Packet}
use sc_transport.Parity.{max_payload}
use sc_transport.Parity.Shards.{HaveLength, AreWithin, map-resize_same, length-resize}

abbrev pub payloads : List Packet → List Bytes
payloads block = map (λ (p : Packet). p.payload) block

abbrev pub data_rows : ℕ → List Packet → List Bytes
data_rows len block = map (λ (p : Packet). resize len p.payload) block

pub data_rows-HaveLength : (len : ℕ) (block : List Packet) → HaveLength len (data_rows len block)
data_rows-HaveLength len [] = tt
data_rows-HaveLength len (p ∷ block) = (length-resize len p.payload, data_rows-HaveLength len block)

pub payloads-AreWithin :
    (len : ℕ) (block : List Packet) → max_payload block ≤ len → AreWithin len (payloads block)
unfolding max_payload
payloads-AreWithin len [] h = tt
payloads-AreWithin len (p ∷ block) h = (omega arith, payloads-AreWithin len block (omega arith))

-- Resizing the payloads and the parity rows makes the rows that are encoded.
pub map-resize-payloads :
    (len : ℕ) (block : List Packet) (parity : List Bytes)
    → HaveLength len parity
    → map (resize len) (payloads block ++ parity) ≡ data_rows len block ++ parity
map-resize-payloads len [] parity h = map-resize_same len parity h
map-resize-payloads len (p ∷ block) parity h =
    ap (◌∷◌ (resize len p.payload)) (map-resize-payloads len block parity h)

pub payload-le-max_payload :
    (block : List Packet) (i : ℕ) {p : Packet}
    → get_elem? block i ≡ some p
    → length p.payload ≤ max_payload block
unfolding max_payload
payload-le-max_payload [] i h = absurd (ground arith)
payload-le-max_payload (q ∷ block) zero {p} h =
    let same : q ≡ p = ground arith in omega (arith, ap (λ (r : Packet). length r.payload) same)
payload-le-max_payload (q ∷ block) (suc i) h = omega (arith, payload-le-max_payload block i h)
