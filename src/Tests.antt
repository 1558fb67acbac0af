-- ===== src/Tests.antt =====
-- Runs of the model at concrete inputs, and the theorems applied to them.
mod Requests
mod Lists
mod Gifts
mod Servers
mod Exchanges
mod Rounds
mod Payments
mod Answers
mod Checks
mod Sends
