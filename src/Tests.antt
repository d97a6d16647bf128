-- ===== src/Tests.antt =====
-- Concrete values for what the model takes as parameters, the theorems at concrete inputs, and runs of
-- the definitions.
mod Json
mod World
mod CaRuns
mod RaRuns
mod AuditRuns
mod ResponderRuns
mod Flow
mod AcmeWorld
mod AcmeRuns
mod EnrollRuns
mod ScepRuns
mod KmsRuns
mod ScriptRuns
mod SerialRuns
