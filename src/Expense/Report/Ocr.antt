-- ===== src/Expense/Report/Ocr.antt =====
-- `updateFromOcr`, which has no guard on the status.
use finvoice.Prelude.{Bool, false, not, ◌&&◌, Option, none, some, [], leb, if◌then◌else◌}
use finvoice.Text.{is_bad_code}
use finvoice.Outcome.{Result, ok, err, domain_exception, Method, ◌>>=◌, ◌>>◌, gets, modify, call}
use finvoice.Runtime.{Runtime, Date, Clock, nought, truthy}
use finvoice.Expense.Receipt.{OcrData, Receipt, new_receipt}
use finvoice.Expense.Report.{Report}

module _ {N : Type 0} ⦃r : Runtime N⦄ where
  open r use {lt, number, div, upper}

  -- `ocrData?.amount && ocrData.amount > 0 && ocrData.confidence && ocrData.confidence > 0.8`
  abbrev pub trusted : Option N → Option N → Bool
  trusted (some amount) (some confidence) =
      truthy amount
      && lt nought amount
      && truthy confidence
      && lt (div (number 8) (number 10)) confidence
  trusted none confidence = false
  trusted (some amount) none = false

  -- The three conditional assignments of `updateFromOcr`. A currency is taken if
  -- `ocrData?.currency && ocrData.currency.length === 3`.
  unfoldable pub take_amount : Option (OcrData N) → Report N → Report N
  take_amount none s = s
  take_amount (some ocr) s = elim ocr.amount [
    | none ↦ s
    | some amount ↦ if trusted (some amount) ocr.confidence then record s { amount = amount } else s
  ]

  unfoldable pub take_currency : Option (OcrData N) → Report N → Report N
  take_currency none s = s
  take_currency (some ocr) s = elim ocr.currency [
    | none ↦ s
    | some code ↦ if not (is_bad_code code) then record s { currency = upper code } else s
  ]

  unfoldable pub take_date : Option (OcrData N) → Date → Report N → Report N
  take_date none now s = s
  take_date (some ocr) now s = elim ocr.date [
    | none ↦ s
    | some date ↦ if leb date now then record s { expense_date = date } else s
  ]

  -- `this.props.receipt`, or the exception where there is none
  abbrev pub receipt_or_throw : Option (Receipt N) → Result (Receipt N)
  receipt_or_throw none = err (domain_exception "Cannot update OCR data without a receipt" [])
  receipt_or_throw (some receipt) = ok receipt

  unfoldable pub update_from_ocr : Option (OcrData N) → Clock → Method (Report N) (Unit {0})
  update_from_ocr ocr_data clock = do
    receipt ← call (receipt_or_throw (← gets (λ s. s.receipt)))
    modify (take_amount ocr_data)
    modify (take_currency ocr_data)
    modify (take_date ocr_data (clock 0))
    renewed ← call (
        new_receipt receipt.file_name receipt.file_url receipt.file_size receipt.mime_type
          receipt.uploaded_at ocr_data)
    modify (λ s. record s { receipt = some renewed; updated_at = clock 1 })
