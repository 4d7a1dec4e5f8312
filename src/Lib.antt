-- ===== src/Lib.antt =====
-- The core of ASHOS, a hotel management system in Django: what a room costs, which room is free, how a
-- reservation lives, what its folio and invoice say, which model answers a guest and at what cost, and
-- when the digital receptionist calls for staff.
--
-- The parts and their files:
--   Money       apps/core/utils.py `money`: decimals and their rounding to hundredths.
--   Rooms       apps/rooms/models.py: room types, rooms, rate plans and dated rates; Rooms/Weekdays
--               reads the text of the weekdays of a rate.
--   Pricing     services/rooms/pricing.py: `nightly_rate` and `quote`.
--   Billing     apps/billing/models.py in Billing/Models, and services/billing/folio.py: folios,
--               charges, voids and payments in Billing/Folio, invoices in Billing/Invoice, the
--               night audit in Billing/Audit.
--   Booking     apps/booking/models.py in Booking/Models; services/booking/availability.py in
--               Booking/Availability; services/booking/reservations.py in Booking/Reservations, with
--               `create` in Booking/Reservations/Create and the writes of allocations, rooms and
--               stay events in Booking/Inventory. Booking/Bookable and Booking/Frame hold proofs.
--               services/booking/online.py in Booking/Online, on top of them.
--   Database    the tables that the services share, the exceptions and the audit trail.
--   Ai          the AI services. Ai/Models: services/ai/base.py and apps/ai_center/models.py.
--               Ai/Registry: services/ai/registry.py (`resolve`, `invalidate`, `_from_db`,
--               `_to_resolved`). Ai/Metering: services/ai/metering.py. Ai/Gateway:
--               services/ai/gateway.py (the guards, `chat`, `embed`, the badges), with the calls that
--               are made once in Ai/Gateway/Direct. Their other children hold proofs.
--   Reception   the digital receptionist. Reception/Models: apps/reception/models.py.
--               Reception/Language, Reception/Guardrails, Reception/Guidance: the modules of these
--               names in services/reception. services/reception/orchestrator.py: `_booking_turn` in
--               Reception/BookingTurn, `respond` in Reception/Respond, the rest in Reception/Turns.
--               Reception/Words has what a turn takes from the texts.
--               services/reception/booking_agent.py: `room_snapshot` in Reception/Offers, `_finalize`
--               in Reception/Agent, `confirm` in Reception/Confirm, on top of Booking and Pricing.
--   Prelude     lists, integers, methods on a state with exceptions, what a method keeps.
--   Examples    a small hotel, its AI services and a conversation, at which the theorems are applied.
-- The reservations call the availability, the prices and the folios; all of them read and write the
-- one database, a record of tables that a service takes and gives back. The receptionist calls the
-- gateway, and this the registry and the metering; they share the state `Desk`, which a conversation's
-- state `Lobby` holds.
--
-- How the code is read:
--   * A service is a method `Act`: a function from the database to a result, or an exception, and
--     the database. `transaction.atomic` is `atomic`, which takes the database back when the method
--     raises; what a service without it wrote before it raised stays.
--   * A service takes the key of a row in place of the object that its caller has just read, and
--     reads the row first; a key that no row has is the error `does_not_exist`.
--   * Keys are numbers, given out in order, so a table is in the order of creation. The rows that a
--     reader of the default manager sees are those that are not deleted; the ambient tenant is that
--     of the rows that a call is about. The order of a text that is only compared, such as a room's
--     number, is a number.
--   * A date is its ordinal; the additions of a guest's nights that may pass `date.max` raise
--     `overflow_error`, and the clock is taken to be more than 396 days before it. An amount in a column of two places is its number of hundredths. A
--     quotient is rounded once, as an exact fraction.
--   * Texts that are only shown (descriptions, notes, the summaries of the audit trail), users and
--     currencies are left out. The random codes of reservations, and the readers of the dates and
--     integers of a query, are arguments.
--   * The constraints of the database are written out where a row is written: rooms that are booked
--     twice, folios of one reservation, keys of payments, numbers of invoices. Those on the dates
--     and the code of a reservation are not: `create` looks at both before it writes.
--   * A provider of models is what it replies to a model, given the calls made before, so its answers
--     may change from call to call. The retries of the library tenacity are a record, `Retry`, of an
--     operation and the law that its documentation states; Examples/Gateway has one. A provider's
--     outcome is an answer or one of the errors of `AiError`; the last three of these are no
--     `AIError`, and pass the gateway's handlers.
--   * Prices, costs and caps of the AI are in millionths of a dollar, confidences in thousandths. The
--     caches are read as they stand: an entry that has run out is one that is not there.
--   * `transaction.atomic` of `respond` takes back the rows; the caches of the spend and of the
--     resolved models, and the calls that were made, stay.
--   * The names of guests are not kept, so among guests of one phone number the first row is taken for
--     the first by name. The JSON of a model is an object without `Infinity`.
--   * The stack of Python is the first argument of `to_resolved`, a number of frames; `to_resolved-total`
--     says how many are enough.
--   * The regular expressions, the sentences that are said, the answers from the hotel's record and
--     what the booking agent returns to a turn are functions of a record, `Words`: the theorems on
--     turns hold whatever they are. The agent is modelled on its own, with the values of the model's
--     JSON, and how Python reads them, as a record `Values`.
--   * `unique_code` has the ten attempts of the code. `serial_text` has one unit of fuel for each
--     unit of the number, and a number has at most that many digits.
--
-- Not modelled: views, forms, templates and the API, which only call the services; the vendors' clients
-- of services/ai/providers; the prompts and the sentences of the receptionist; face recognition and
-- analytics; the concurrency of two requests, which the code leaves to the constraints of the
-- database.
pub mod Prelude
pub mod Money
pub mod Rooms
pub mod Pricing
pub mod Billing
pub mod Booking
pub mod Database
pub mod Ai
pub mod Reception
pub mod Examples
