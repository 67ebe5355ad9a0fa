-- ===== src/Billing.antt =====
-- services/billing: the invoice service.
pub mod Money
pub mod TaxRate
pub mod LineItem
pub mod Totals
pub mod Invoice
pub mod Application
