-- ===== src/Billing/Models.antt =====
-- apps/billing/models.py: folios, their lines, payments, invoices and the business date.
-- Amounts are in hundredths. Descriptions, references, notes and user keys are left out.
use fab_ai_smart_hotel_manag.Prelude.{ℕ, Bool, true, false, Option}
use fab_ai_smart_hotel_manag.Prelude.{List}
use fab_ai_smart_hotel_manag.Prelude.Int.{ℤ}
use fab_ai_smart_hotel_manag.Rooms.Weekdays.{Text}

pub data FolioStatus : Type 0 where
  opened settled void : FolioStatus

pub data ChargeType : Type 0 where
  room tax service restaurant minibar laundry spa transport : ChargeType
  late_checkout damage discount adjustment other : ChargeType

pub data PaymentMethod : Type 0 where
  cash card bkash nagad bank_transfer corporate online : PaymentMethod

pub data PaymentStatus : Type 0 where
  pending captured failed refunded voided : PaymentStatus

pub record Folio : Type 0 where
  pub pk : ℕ
  pub tenant : ℕ
  pub is_deleted : Bool
  pub reservation : ℕ
  pub guest : ℕ
  pub status : FolioStatus
  pub charges_total : ℤ
  pub payments_total : ℤ
  pub balance : ℤ
  pub settled_at : Option ℕ

pub record FolioLine : Type 0 where
  pub pk : ℕ
  pub tenant : ℕ
  pub is_deleted : Bool
  pub folio : ℕ
  pub charge_type : ChargeType
  pub business_date : ℕ
  pub quantity : ℤ
  pub unit_price : ℤ
  pub amount : ℤ
  pub source_ref : Option ℕ
  pub is_voided : Bool
  pub voided_by_line : Option ℕ
  pub ai_suggested : Bool

pub record Invoice : Type 0 where
  pub pk : ℕ
  pub tenant : ℕ
  pub is_deleted : Bool
  pub number : Text  -- `INV-2026-000123`
  pub folio : ℕ
  pub guest : ℕ
  pub subtotal : ℤ
  pub tax_amount : ℤ
  pub service_amount : ℤ
  pub discount_amount : ℤ
  pub total : ℤ
  pub amount_paid : ℤ
  pub is_paid : Bool
  pub snapshot : List FolioLine

pub record Payment : Type 0 where
  pub pk : ℕ
  pub tenant : ℕ
  pub is_deleted : Bool
  pub folio : ℕ
  pub method : PaymentMethod
  pub status : PaymentStatus
  pub amount : ℤ
  pub idempotency_key : Text

pub record BusinessDate : Type 0 where
  pub pk : ℕ
  pub tenant : ℕ
  pub is_deleted : Bool
  pub current_date : ℕ
  pub last_audit_at : Option ℕ
  pub rooms_charged : ℕ
  pub revenue_posted : ℤ

abbrev pub is_opened : FolioStatus → Bool
is_opened opened = true
is_opened _ = false

abbrev pub is_captured : PaymentStatus → Bool
is_captured captured = true
is_captured _ = false

-- The charge types whose posting writes an audit row.
abbrev pub is_judgement : ChargeType → Bool
is_judgement discount = true
is_judgement adjustment = true
is_judgement damage = true
is_judgement _ = false

abbrev pub is_room_charge : ChargeType → Bool
is_room_charge room = true
is_room_charge _ = false
