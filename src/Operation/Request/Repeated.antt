-- ===== src/Operation/Request/Repeated.antt =====
-- A request that is made again with the same key.
pub mod Since
use providah_community.Prelude.{Bool, ◌&&◌, len, ltb, Bool-cases}
use providah_community.Provider.Power.{valid_resize}
use providah_community.Operation.Tables.{Operation, >>-eq-done}
use providah_community.Operation.World.{World, power_permission}
use providah_community.Operation.Request.Repeated.Since.{SameRequest}
