-- ===== src/Broker/Ledger/Repeats.antt =====
-- internal/agent/broker/commands.go: what becomes of a completed command in the calls that follow, and
-- how its repetitions are answered.
use agent_whiteboard.Base.{Bool, ◌&&◌, List, [], ◌∷◌, Option, Str, is_some, lookup}
use agent_whiteboard.Broker.Ledger.{CommandLedger}
use agent_whiteboard.Broker.Ledger.History.{Call, step}

module _ {E : Type 0} where
  module _ (command_of : E → Option Str) (encodes : E → Bool) where
    -- Whether the ledger has a command, before the calls and after each of them.
    unfoldable pub remembered : Str → List (Call E) → CommandLedger E → Bool
    remembered id [] l = is_some (lookup id l.entries)
    remembered id (c ∷ cs) l =
        is_some (lookup id l.entries) && remembered id cs (step command_of encodes c l)
