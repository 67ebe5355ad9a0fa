-- ===== src/Invoicing.antt =====
-- src/modules/billing/domain: the invoicing module of the monolith.
pub mod Money
pub mod TaxRate
pub mod Item
pub mod Number
pub mod Invoice
