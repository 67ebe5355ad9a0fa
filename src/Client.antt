-- ===== src/Client.antt =====
-- `ClientAggregate` and `Address` of services/clients/src/domain/aggregates/client.aggregate.ts. The
-- methods that change a client never throw, so they are functions. A getter is a field.
pub mod Email
pub mod Laws
use finvoice.Prelude.{not, ◌||◌, Bool, true, false, Option, none, some, [], if◌then◌else◌}
use mathlib.Core.Option
use finvoice.Text.{Text, trim, is_blank, is_empty, has_content}
use finvoice.Outcome.{Result, ok, err, domain_exception}
use finvoice.Runtime.{Runtime, Date, Clock}
use finvoice.Client.Email.{is_valid_email}

pub record Address : Type 0 where
  pub street : Text
  pub city : Text
  pub state : Text
  pub postal_code : Text
  pub country : Text

-- The constructor.
unfoldable pub new_address : (street city state postal_code country : Text) → Result Address
new_address street city state postal_code country =
    if is_blank street
    then err (domain_exception "Street address cannot be empty" [])
    else if is_blank city
    then err (domain_exception "City cannot be empty" [])
    else if is_blank country
    then err (domain_exception "Country cannot be empty" [])
    else ok (record {
      street = street;
      city = city;
      state = state;
      postal_code = postal_code;
      country = country;
    })

pub record Client : Type 0 where
  pub id : Text
  pub name : Text
  pub email : Text
  pub phone : Option Text
  pub tax_id : Option Text
  pub address : Option Address
  pub billing_address : Option Address
  pub is_active : Bool
  pub created_at : Date
  pub updated_at : Date

module _ {N : Type 0} (r : Runtime N) where
  -- `email.toLowerCase().trim()`
  abbrev pub stored_email : Text → Text
  stored_email email = trim (r.lower email)

  unfoldable pub create :
      Text
      → (name email : Text) → (phone tax_id : Option Text)
      → (address billing_address : Option Address) → Clock
      → Result Client
  create id name email phone tax_id address billing_address clock =
      if is_blank name
      then err (domain_exception "Client name cannot be empty" [])
      else if is_empty email || not (is_valid_email email)
      then err (domain_exception "Valid email is required" [])
      else ok (record {
        id = id;
        name = trim name;
        email = stored_email email;
        phone = Option.map trim phone;
        tax_id = Option.map trim tax_id;
        address = address;
        billing_address = billing_address;
        is_active = true;
        created_at = clock 0;
        updated_at = clock 0;
      })

  -- `if (name && name.trim().length > 0)`
  unfoldable pub set_name : Option Text → Client → Client
  set_name none s = s
  set_name (some name) s = if is_blank name then s else record s { name = trim name }

  -- `if (email && ClientAggregate.isValidEmail(email))`
  unfoldable pub set_email : Option Text → Client → Client
  set_email none s = s
  set_email (some email) s =
      if is_empty email || not (is_valid_email email)
      then s
      else record s { email = stored_email email }

  -- `if (phone !== undefined)`
  unfoldable pub set_phone : Option Text → Client → Client
  set_phone none s = s
  set_phone (some phone) s = record s { phone = some (trim phone) }

  abbrev pub touch : Clock → Client → Client
  touch clock s = record s { updated_at = clock 0 }

  unfoldable pub update_contact_info : (name email phone : Option Text) → Clock → Client → Client
  update_contact_info name email phone clock s =
      touch clock (set_phone phone (set_email email (set_name name s)))

  unfoldable pub update_address : Address → Clock → Client → Client
  update_address address clock s = touch clock (record s { address = some address })

  unfoldable pub update_billing_address : Address → Clock → Client → Client
  update_billing_address address clock s = touch clock (record s { billing_address = some address })

  unfoldable pub update_tax_id : Text → Clock → Client → Client
  update_tax_id tax_id clock s = touch clock (record s { tax_id = some (trim tax_id) })

  unfoldable pub deactivate : Clock → Client → Client
  deactivate clock s = touch clock (record s { is_active = false })

  unfoldable pub activate : Clock → Client → Client
  activate clock s = touch clock (record s { is_active = true })
