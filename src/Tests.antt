-- ===== src/Tests.antt =====
-- Runs of the models on concrete inputs, most of them taken from the repository's own tests, and the
-- theorems at inputs that meet their hypotheses.
mod Memory
mod Codec
mod Options
mod Transactions
mod Readings
mod Examples
mod Traces
mod Validations
mod Hex
mod Web
mod Patches
mod Program
mod Logging
mod Connects
mod Measures
mod Shutdown
mod Handlers
