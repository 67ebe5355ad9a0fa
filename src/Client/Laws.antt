-- ===== src/Client/Laws.antt =====
-- What holds of every client between two calls.
use finvoice.Prelude.{
  inr, inl, ◌∙◌, Bool-cases, ◌≡◌, refl, ◌≤◌, true, false, Option, none, some, List, [], ◌∷◌, arith,
  All,
}
use finvoice.Text.{Text, trim, is_blank, is_empty}
use finvoice.Text.Laws.{IsClean, trim-IsClean}
use finvoice.Outcome.{ok}
use finvoice.Runtime.{Runtime, Clock}
use finvoice.Client.{
  Address, Client, stored_email, create, set_name, set_email, set_phone, update_contact_info,
  update_address, update_billing_address, update_tax_id, deactivate, activate,
}
use finvoice.Client.Email.{is_valid_email}

-- A call of a method that changes the client.
pub data Call : Type 0 where
  contact : (name email phone : Option Text) → Call
  move billing : Address → Call
  tax : Text → Call
  leave return : Call

module _ {N : Type 0} (r : Runtime N) where
  unfoldable pub step_client : Call → Clock → Client → Client
  step_client (contact name email phone) clock s = update_contact_info r name email phone clock s
  step_client (move address) clock s = update_address r address clock s
  step_client (billing address) clock s = update_billing_address r address clock s
  step_client (tax id) clock s = update_tax_id r id clock s
  step_client leave clock s = deactivate r clock s
  step_client return clock s = activate r clock s

  unfoldable pub run_client : List (Call × Clock) → Client → Client
  run_client [] s = s
  run_client ((c, clock) ∷ calls) s = run_client calls (step_client c clock s)

  -- What is stored of a valid address.
  unfoldable pub IsStored : Text → Type 0
  IsStored t = (email : Text) × (is_valid_email email ≡ true) × (t ≡ stored_email r email)

  pub record IsConsistent (s : Client) : Type 0 where
    pub named : IsClean s.name
    pub reachable : IsStored s.email
    pub dated : s.created_at ≤ s.updated_at

  set_name-IsClean : (o : Option Text) (s : Client) → IsClean s.name → IsClean (set_name r o s).name
  unfolding set_name
  set_name-IsClean none s h = h
  set_name-IsClean (some t) s h = ground (arith, trim-IsClean t)

  set_email-IsStored :
      (o : Option Text) (s : Client) → IsStored s.email → IsStored (set_email r o s).email
  unfolding set_email IsStored
  set_email-IsStored none s h = h
  set_email-IsStored (some t) s h = elim (Bool-cases (is_valid_email t)) [
    | inl valid ↦ elim (Bool-cases (is_empty t)) [
      | inl empty ↦ rw (valid, empty) h
      | inr filled ↦ rw (valid, filled) (t, valid, refl)
    ]
    | inr other ↦ elim (Bool-cases (is_empty t)) [
      | inl empty ↦ rw (other, empty) h
      | inr filled ↦ rw (other, filled) h
    ]
  ]

  -- What the three updates of contact data leave alone.
  contact_parts :
      (name email phone : Option Text) (s : Client)
      → ((set_phone r phone (set_email r email (set_name r name s))).name
          ≡ (set_name r name s).name)
        × ((set_phone r phone (set_email r email (set_name r name s))).email
            ≡ (set_email r email s).email)
        × ((set_phone r phone (set_email r email (set_name r name s))).created_at ≡ s.created_at)
  unfolding set_name set_email set_phone
  contact_parts none none none s = ground arith
  contact_parts none none (some p) s = ground arith
  contact_parts none (some e) none s = ground arith
  contact_parts none (some e) (some p) s = ground arith
  contact_parts (some n) none none s = ground arith
  contact_parts (some n) none (some p) s = ground arith
  contact_parts (some n) (some e) none s = ground arith
  contact_parts (some n) (some e) (some p) s = ground arith

  step_client-IsConsistent :
      (c : Call) (clock : Clock) (s : Client)
      → s.created_at ≤ clock 0
      → IsConsistent s
      → IsConsistent (step_client c clock s) × ((step_client c clock s).created_at ≡ s.created_at)
  unfolding step_client update_contact_info update_address update_billing_address update_tax_id
      deactivate activate
  step_client-IsConsistent (contact name email phone) clock s later h =
      let (a, b, c) = contact_parts name email phone s in
      (
        record {
          named = rw a (set_name-IsClean name s h.named);
          reachable = rw b (set_email-IsStored email s h.reachable);
          dated = rw c later;
        },
        c,
      )
  step_client-IsConsistent (move address) clock s later h = ground arith
  step_client-IsConsistent (billing address) clock s later h = ground arith
  step_client-IsConsistent (tax id) clock s later h = ground arith
  step_client-IsConsistent leave clock s later h = ground arith
  step_client-IsConsistent return clock s later h = ground arith

  run_client-IsConsistent :
      (calls : List (Call × Clock)) (s : Client)
      → All (λ (c : Call × Clock). s.created_at ≤ c.1 0) calls
      → IsConsistent s
      → IsConsistent (run_client calls s) × ((run_client calls s).created_at ≡ s.created_at)
  unfolding run_client
  run_client-IsConsistent [] s later h = (h, refl)
  run_client-IsConsistent ((c, clock) ∷ calls) s (l, ls) h =
      let (h', same) = step_client-IsConsistent c clock s l h in
      let later' : All (λ (c' : Call × Clock). (step_client c clock s).created_at ≤ c'.1 0) calls =
        rw same ls in
      let (done, kept) = run_client-IsConsistent calls (step_client c clock s) later' h' in
      (done, kept ∙ same)

  create-IsConsistent :
      (id name email : Text) (phone tax_id : Option Text) (address billing_address : Option Address)
      (clock : Clock) (s : Client)
      → create r id name email phone tax_id address billing_address clock ≡ ok s
      → IsConsistent s × (s.created_at ≡ clock 0)
  unfolding create IsStored
  create-IsConsistent id name email phone tax_id address billing_address clock s h =
      let fields : (s.name ≡ trim name)
          × (s.email ≡ stored_email r email)
          × (is_valid_email email ≡ true)
          × (is_blank name ≡ false)
          × (s.created_at ≡ clock 0)
          × (s.updated_at ≡ clock 0) =
        ground (arith, h) in
      (
        record {
          named = rw (fields.0) (trim-IsClean name fields.3);
          reachable = (email, fields.2, fields.1);
          dated = ground (arith, fields);
        },
        fields.4,
      )

  -- Every client that `create` returns and any calls then reach, on a clock that never shows a time
  -- before the creation, has a trimmed name that is not empty and an email that was stored of a
  -- valid address, and its update date is not before its creation date, which never changes.
  pub created_client-IsConsistent :
      (id name email : Text) (phone tax_id : Option Text) (address billing_address : Option Address)
      (clock : Clock) (s : Client) (calls : List (Call × Clock))
      → create r id name email phone tax_id address billing_address clock ≡ ok s
      → All (λ (c : Call × Clock). clock 0 ≤ c.1 0) calls
      → IsConsistent (run_client calls s) × ((run_client calls s).created_at ≡ clock 0)
  created_client-IsConsistent id name email phone tax_id address billing_address clock s calls h l =
      let (c, e) =
        create-IsConsistent id name email phone tax_id address billing_address clock s h in
      let l' : All (λ (c' : Call × Clock). s.created_at ≤ c'.1 0) calls = rw e l in
      let (done, kept) = run_client-IsConsistent calls s l' c in (done, kept ∙ e)
