-- ===== src/Examples.antt =====
-- The theorems at concrete inputs, and runs of the definitions.
mod Queue
mod OnSync
mod Scaling
mod Webhook
mod Controllers
mod Reconcile
mod Batch
mod Deployment
mod History
mod Status
mod Stop
mod Payloads
mod JobHistory
mod Environment
mod Secrets
mod Components
mod BatchJobs
