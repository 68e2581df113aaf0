-- ===== src/Tests.antt =====
-- Tests of the definitions on concrete inputs, and the theorems at inputs that meet their hypotheses.
pub mod AcceptRuns
pub mod BoundsRuns
pub mod RequestRuns
pub mod RoomRuns
pub mod SessionRuns
pub mod MainRuns
pub mod QueueRuns
pub mod HeadersRuns
pub mod ChatRuns
pub mod ClientRuns
pub mod PoolRuns
pub mod ServerRuns
