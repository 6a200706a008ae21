-- ===== src/Transfer/Stages/Exits.antt =====
-- When `execute` leaves the process with code 0.
use rainbow_bridge.Prelude.{ℕ, ◌⊎◌, ◌≡◌}
use rainbow_bridge.Prelude.Js.{JsError, ok, err}
use rainbow_bridge.Transfer.{TransferLog, not_started, Transfer}
use rainbow_bridge.Transfer.Stages.{Setting}

module _ {W TxReceipt Block Receipt Log Tree PathNode D : Type 0}
    (g : Setting W TxReceipt Block Receipt Log Tree PathNode D) (fuel : ℕ) where
  abbrev State : Type 0
  State = Transfer W Block Receipt Log PathNode

  -- The log as `execute` reads it: as it is, or empty where it cannot be read.
  abbrev pub IsLogOf : State → TransferLog Block Receipt Log PathNode → Type 0
  IsLogOf s log =
      (((g.services.read_file s.world).0 ≡ ok tt) × (log ≡ s.log))
      ⊎ ((e : JsError) × ((g.services.read_file s.world).0 ≡ err e) × (log ≡ not_started))
