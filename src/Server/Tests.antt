-- ===== src/Server/Tests.antt =====
-- Runs of the model of src/server_adaptor on concrete inputs.
mod Data
mod Requests
mod Counters
mod Queues
mod Settings
mod Replies
mod Quotas
