-- ===== src/Lib.antt =====
-- Verification of the domain logic of finvoice, a financial management and invoicing system
-- in TypeScript. The services keep their rules in aggregates: objects whose methods check
-- their arguments and status, throw an exception or change the object, and record domain
-- events that the application layer publishes later.
--
-- Shared modules
--   Prelude    names of the libraries, tests on numbers, lists.
--   Text       JavaScript strings as lists of UTF-16 code units, with trim and truthiness.
--   Dict       the JavaScript Map with string keys, in insertion order.
--   Outcome    exceptions (shared/kernel/exceptions.ts); Result for pure code that may throw;
--              Method for code that mutates an object: the object comes back also where the
--              method throws, with what it wrote until then.
--   Runtime    numbers, dates and case mapping. Numbers are IEEE doubles in the source. They are
--              a parameter N with the operations that the code uses; IsOrdered states the laws
--              that proofs rely on, which hold of doubles with NaN and the infinities (no
--              associativity is assumed). A Date is a valid one, in milliseconds from the first
--              that ECMAScript represents. Runtime/Milli is a fixed-point instance for runs.
--
-- Components
--   Billing    services/billing/src/domain: Money and TaxRate (value-objects), LineItem, the
--              totals (Billing/Totals) and InvoiceAggregate (Billing/Invoice); the use cases of
--              services/billing/src/application over stored invoices (Billing/Application).
--   Expense    services/expenses/src/domain: Receipt and ExpenseReportAggregate.
--   Payment    services/payments/src/domain: PaymentAggregate.
--   Invoicing  src/modules/billing/domain, the invoicing of the monolith: Money with two decimals,
--              TaxRate, InvoiceItem (Item), InvoiceNumber with its counter (Number), and
--              InvoiceAggregate (Invoice) with items and totals, payments and proration.
--   Client     services/clients/src/domain: Address, the e-mail expression (Email), ClientAggregate.
--   EventBus   InProcessEventBus (shared/kernel/event-bus.ts) and RedisEventBus
--              (shared/infrastructure/event-bus/redis-event-bus.ts). A handler is a method on the
--              world that it changes and runs to its end when called; Redis and JSON are the
--              parameter Channel.
--   Auth       AuthService (src/modules/auth/services/auth.service.ts) over the users collection.
--              Hashing and tokens are the parameter Environment.
--   Gateway    PaymentGatewayService (shared/infrastructure/payment/payment-gateway.service.ts):
--              the start of the providers, their scores (Selection), charges with fallbacks
--              (Processing), refunds and webhooks. Providers and bus are methods on a world.
--   Admin      RolesService (Roles, BulkRoles) and PermissionsService (Permissions, Sync, Matrix) of
--              src/modules/admin/services, over the schemas beside them.
--   PaymentsApi
--              PaymentsController (services/payments/src/api/controllers) over its repository and
--              schema.
--   Workflow   the workflows of EnterpriseJobService (shared/infrastructure/jobs): the loop over the
--              steps with their dependencies.
--   Collection what the services use of Mongoose: an interface with the laws that the server's
--              manual states, and an instance that is the list of the documents.
--   Tests      runs at concrete inputs.
--
-- Method names are those of the source in snake case; an argument `clock` stands for the
-- successive results of `new Date()`, and an identifier that the source draws at random is an
-- argument. The methods of an aggregate are gathered in a type Call with a function step_…, and
-- run_… performs a list of calls in which the caller goes on after an exception.
--
-- Not modelled: toString and toSnapshot, equality of value objects by their JSON texts, invalid
-- dates, failing connections, HTTP, queues, and the foreign services behind them. Loops are structural
-- recursions over lists; only the printing of a number has fuel, one more than the number, which
-- has no more digits than that.
pub mod Prelude
pub mod Text
pub mod Dict
pub mod Outcome
pub mod Runtime
pub mod Billing
pub mod Expense
pub mod Payment
pub mod Invoicing
pub mod Client
pub mod EventBus
pub mod PaymentsApi
pub mod Workflow
pub mod Collection
pub mod Auth
pub mod Admin
pub mod Gateway
mod Tests
