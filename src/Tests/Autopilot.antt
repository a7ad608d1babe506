-- ===== src/Tests/Autopilot.antt =====
-- Packets of two groups, of which one is completed, on their way through `optimize_transfer`.
use sc_transport.Packet.{Packet}
