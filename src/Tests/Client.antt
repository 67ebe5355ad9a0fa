-- ===== src/Tests/Client.antt =====
-- Clients at concrete inputs.
use finvoice.Prelude.{◌≡◌, ◌↔◌, refl, true, none, some, List, [], ◌∷◌, arith}
use finvoice.Text.{text, is_blank}
use finvoice.Outcome.{ok}
use finvoice.Runtime.{Clock}
use finvoice.Runtime.Milli.{milli_runtime}
use finvoice.Client.{Client, create}
use finvoice.Client.Email.{
  is_valid_email, IsEmail, is_valid_email_iff, matches_from, is_plain, matches_domain, dotted,
}
use finvoice.Client.Laws.{
  Call, contact, leave, run_client, IsConsistent, created_client-IsConsistent,
}
use finvoice.Tests.Data.{clock}

abbrev client : Client
client = record {
  id = text "c1";
  name = text "Ann";
  email = text "ann@acme.org";
  phone = none;
  tax_id = none;
  address = none;
  billing_address = none;
  is_active = true;
  created_at = 1000;
  updated_at = 1000;
}

made :
    create milli_runtime (text "c1") (text " Ann ") (text "ann@acme.org") none none none none clock
    ≡ ok client
unfolding create is_blank is_valid_email matches_from is_plain matches_domain dotted
made = refl

abbrev calls : List (Call × Clock)
calls =
    (contact (some (text " ")) (some (text "ann@home")) none, clock)
    ∷ (contact none (some (text "ann@home.org")) (some (text "555")), clock)
    ∷ (leave, clock)
    ∷ []

created_client-IsConsistent_example :
    IsConsistent milli_runtime (run_client milli_runtime calls client)
    × ((run_client milli_runtime calls client).created_at ≡ 1000)
created_client-IsConsistent_example =
    created_client-IsConsistent milli_runtime (text "c1") (text " Ann ") (text "ann@acme.org") none
      none none none clock client calls made (omega arith, (omega arith, (omega arith, tt)))

is_valid_email_iff_example :
    (is_valid_email (text "ann@acme.org") ≡ true) ↔ IsEmail (text "ann@acme.org")
is_valid_email_iff_example = is_valid_email_iff (text "ann@acme.org")
