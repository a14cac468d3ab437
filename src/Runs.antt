-- ===== src/Runs.antt =====
-- Concrete runs of the modelled code, small instances of the libraries that it asks, and the theorems
-- at concrete inputs.
mod Samples
mod WriterRuns
mod WriterClaims
mod ReaderClaims
mod NamesClaims
mod WaitSetClaims
mod QosClaims
mod CallbackClaims
mod ServiceClaims
