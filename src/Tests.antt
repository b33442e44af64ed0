-- ===== src/Tests.antt =====
-- Concrete runs of the modelled code, and the theorems at concrete inputs.
mod PacketRuns
mod IhexRuns
mod CanRuns
mod HhtRuns
mod ProbeRuns
mod StorageRuns
mod ManagerRuns
mod WorkerRuns
mod ConvertRuns
mod TcpRuns
mod BleRuns
mod UpdateRuns
