-- ===== src/Shared/Clock.antt =====
-- src/shared/clock.ts: which of two writes of a record wins.
pub mod Order
use typescript_tetherdb.Base.{
  ℕ, Text, Option, none, some, [], Bool, true, false, ltb, text_le, get_or, if◌then◌else◌,
}

-- What the comparison reads of a write. A timestamp is in whole milliseconds.
pub record Stamp : Type 0 where
  pub timestamp : ℕ
  pub client_id : Option Text

unfoldable pub should_overwrite : Stamp → Option Stamp → Bool
should_overwrite incoming none = true
should_overwrite incoming (some existing) =
    if ltb existing.timestamp incoming.timestamp
    then true
    else if ltb incoming.timestamp existing.timestamp
    then false
    else text_le (get_or existing.client_id []) (get_or incoming.client_id [])
