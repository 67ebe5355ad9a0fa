-- ===== src/Expense.antt =====
-- services/expenses: receipts and expense reports.
pub mod Receipt
pub mod Report
