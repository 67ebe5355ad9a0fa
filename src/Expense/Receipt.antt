-- ===== src/Expense/Receipt.antt =====
-- The class `Receipt` of services/expenses/src/domain/aggregates/expense-report.aggregate.ts.
use finvoice.Prelude.{
  ◌≡◌, Bool, true, false, not, Option, none, some, List, [], ◌∷◌, any, arith, if◌then◌else◌,
}
use text.Mathlib.Text.{◌==◌ as str_eq}
use finvoice.Prelude.{String}
use finvoice.Text.{Text, is_blank}
use finvoice.Outcome.{Result, ok, err, domain_exception}
use finvoice.Runtime.{Runtime, Date, nought, le, or_else}

-- Every field may be undefined.
pub record OcrData (N : Type 0) : Type 0 where
  pub amount : Option N
  pub currency : Option Text
  pub date : Option Date
  pub vendor : Option Text
  pub extracted_text : Option Text
  pub confidence : Option N

-- A MIME type is only compared, so it is a native string.
pub record Receipt (N : Type 0) : Type 0 where
  pub file_name : Text
  pub file_url : Text
  pub file_size : N
  pub mime_type : String
  pub uploaded_at : Date
  pub ocr_data : Option (OcrData N)

abbrev allowed_types : List String
allowed_types = "image/jpeg" ∷ "image/png" ∷ "image/gif" ∷ "application/pdf" ∷ []

unfoldable pub is_valid_mime_type : String → Bool
is_valid_mime_type mime_type = any (str_eq mime_type) allowed_types

module _ {N : Type 0} ⦃r : Runtime N⦄ where
  -- The constructor.
  unfoldable pub new_receipt :
      Text → Text → N → String → Date → Option (OcrData N) → Result (Receipt N)
  new_receipt file_name file_url file_size mime_type uploaded_at ocr_data =
      if is_blank file_name
      then err (domain_exception "Receipt file name cannot be empty" [])
      else if is_blank file_url
      then err (domain_exception "Receipt file URL cannot be empty" [])
      else if le file_size nought
      then err (domain_exception "Receipt file size must be positive" [])
      else if not (is_valid_mime_type mime_type)
      then err (domain_exception "Invalid receipt file type" [])
      else ok (record {
        file_name = file_name;
        file_url = file_url;
        file_size = file_size;
        mime_type = mime_type;
        uploaded_at = uploaded_at;
        ocr_data = ocr_data;
      })

  -- `getConfidenceLevel`
  unfoldable pub get_confidence_level : Receipt N → N
  get_confidence_level receipt = elim receipt.ocr_data [
    | none ↦ nought
    | some ocr ↦ or_else ocr.confidence nought
  ]

  -- What the constructor checks.
  pub record IsReceipt (receipt : Receipt N) : Type 0 where
    pub named : is_blank receipt.file_name ≡ false
    pub located : is_blank receipt.file_url ≡ false
    pub sized : le receipt.file_size nought ≡ false
    pub typed : is_valid_mime_type receipt.mime_type ≡ true

  pub new_receipt-IsReceipt :
      (n u : Text) (size : N) (m : String) (d : Date) (o : Option (OcrData N)) {receipt : Receipt N}
      → new_receipt n u size m d o ≡ ok receipt
      → IsReceipt receipt
  unfolding new_receipt
  new_receipt-IsReceipt n u size m d o h = ground arith

  -- A valid receipt can be made again with other OCR data.
  pub new_receipt_again :
      (receipt : Receipt N) (o : Option (OcrData N))
      → IsReceipt receipt
      → new_receipt receipt.file_name receipt.file_url receipt.file_size receipt.mime_type
          receipt.uploaded_at o
        ≡ ok (record receipt { ocr_data = o })
  unfolding new_receipt
  new_receipt_again receipt o h = ground arith
