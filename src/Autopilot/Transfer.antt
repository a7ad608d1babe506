-- ===== src/Autopilot/Transfer.antt =====
-- `optimize_transfer` comes to its end and hands on every packet, once or twice.
use sc_transport.Base.{◌<◌, Bool, List, length}
use sc_transport.Base.Count.{count}
use sc_transport.Base.Float.{Float}
use sc_transport.Base.HashMap
use sc_transport.Base.HashMap.{HashMap}
use sc_transport.Base.HashSet.{HashSet, contains}
use sc_transport.Packet.{Packet, Block}
use sc_transport.Parity.{FecEncoder}
use sc_transport.Pipeline.Stash.{total}
use sc_transport.Multipath.Scheduler.{MultiPathScheduler}
use sc_transport.Autopilot.{SchedulingDecision, schedule_block, detect_stragglers, sort_blocks}
use sc_transport.Autopilot.Optimize.{Schedule}
use sc_transport.Autopilot.Laws.{Moves}

module _ (float : Float) (scheduler : MultiPathScheduler float) (fec : FecEncoder)
    (completion_first_enabled : Bool) (some_path : 0 < length scheduler.paths) where
  abbrev Progresses : Schedule → Schedule → Type 0
  Progresses s s' =
      (f : Packet → Bool)
      → Moves (count f s.out) (total f s.by_block) (count f s'.out) (total f s'.by_block)

  abbrev sorted_of : Schedule → List Block
  sorted_of s = sort_blocks float scheduler fec completion_first_enabled s.out s.blocks

  abbrev with_sorted : Schedule → Schedule
  with_sorted s = record s { blocks = sorted_of s }

  abbrev decision_of : Schedule → Block → SchedulingDecision
  decision_of s block = schedule_block completion_first_enabled block (
      contains (detect_stragglers float scheduler fec completion_first_enabled (sorted_of s))
        block.id)
