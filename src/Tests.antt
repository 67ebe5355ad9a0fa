-- ===== src/Tests.antt =====
-- Runs at concrete inputs, over the fixed-point numbers of Runtime/Milli.
mod Data
mod Billing
mod Expense
mod Payment
mod Invoicing
mod Client
mod EventBus
mod Auth
mod Gateway
mod Admin
mod Application
mod Workflow
mod Payments
