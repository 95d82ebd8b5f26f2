-- ===== src/Examples.antt =====
-- Runs of the models on concrete inputs, and the theorems applied to them.
pub mod DnsRuns
pub mod TableRuns
pub mod TextRuns
pub mod ExecRuns
pub mod FlightRuns
pub mod NetRuns
pub mod TlsRuns
pub mod LsofRuns
pub mod MacRuns
pub mod CaRuns
pub mod CaFetchRuns
