-- ===== src/Expense/Report/Details.antt =====
-- `updateDetails`.
use finvoice.Prelude.{not, ◌&&◌, Option, none, some, [], leb, if◌then◌else◌}
use finvoice.Text.{Text, trim, has_content}
use finvoice.Outcome.{domain_exception, Method, ◌>>=◌, ◌>>◌, throw_if, gets, modify}
use finvoice.Runtime.{Runtime, Date, Clock, nought, truthy}
use finvoice.Expense.Report.{Report, ExpenseCategory, draft, is_status}

module _ {N : Type 0} ⦃r : Runtime N⦄ where
  open r use {lt, number, div, upper}

  -- The guarded assignments of `updateDetails`, one for each argument that may be undefined.
  unfoldable pub set_title : Option Text → Report N → Report N
  set_title none s = s
  set_title (some title) s = if has_content (some title) then record s { title = trim title } else s

  unfoldable pub set_description : Option Text → Report N → Report N
  set_description none s = s
  set_description (some description) s = record s { description = trim description }

  unfoldable pub set_amount : Option N → Report N → Report N
  set_amount none s = s
  set_amount (some amount) s =
      if truthy amount && lt nought amount then record s { amount = amount } else s

  unfoldable pub set_category : Option ExpenseCategory → Report N → Report N
  set_category none s = s
  set_category (some category) s = record s { category = category }

  unfoldable pub set_expense_date : Option Date → Date → Report N → Report N
  set_expense_date none now s = s
  set_expense_date (some date) now s = if leb date now then record s { expense_date = date } else s

  unfoldable pub set_project_id : Option Text → Report N → Report N
  set_project_id none s = s
  set_project_id (some project) s = record s { project_id = some (trim project) }

  unfoldable pub set_notes : Option Text → Report N → Report N
  set_notes none s = s
  set_notes (some notes) s = record s { notes = some (trim notes) }

  unfoldable pub update_details :
      (title description : Option Text)
      → Option N
      → Option ExpenseCategory
      → Option Date
      → (project_id notes : Option Text) → Clock
      → Method (Report N) (Unit {0})
  update_details title description amount category expense_date project_id notes clock = do
    status ← gets (λ s. s.status)
    throw_if (not (is_status status draft)) (domain_exception "Can only update draft expenses" [])
    modify (set_title title)
    modify (set_description description)
    modify (set_amount amount)
    modify (set_category category)
    modify (set_expense_date expense_date (clock 0))
    modify (set_project_id project_id)
    modify (set_notes notes)
    modify (λ s. record s { updated_at = clock 1 })
