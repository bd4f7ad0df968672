-- ===== src/ClientList/Granted.antt =====
-- The consistency of the pointer to the docent and the pointer to the writer.
use virtual_blackboard.Prelude.{◌≢◌, arith}
use virtual_blackboard.ClientList.{ClientList}
use virtual_blackboard.ClientList.Seg.{Ptr, null, ClientData, Roster}
use virtual_blackboard.ClientList.Represents.{IsGranted}
use virtual_blackboard.ClientList.Add.{Added}
use virtual_blackboard.ClientList.Unlink.{Removed}

pub Added-IsGranted :
    (fresh : Ptr) (c : ClientData) (s t : ClientList) (xs : Roster)
    → fresh ≢ null
    → Added fresh c s t xs
    → IsGranted s
    → IsGranted t
Added-IsGranted fresh c s t xs ne a g d w = ground (arith, a.docent_is, a.write_is, g)

pub Removed-IsGranted :
    (p : Ptr) (s t : ClientList) (xs : Roster) → Removed p s t xs → IsGranted s → IsGranted t
Removed-IsGranted p s t xs m g d w = ground (arith, m.docent_is, m.write_is, g)
