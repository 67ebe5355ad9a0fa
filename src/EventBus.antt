-- ===== src/EventBus.antt =====
-- The event buses. A handler is a method on the world `W` that it changes, run to its end when it is
-- called: a handler that waits in between is not modelled.
pub mod InProcess
pub mod Redis
use finvoice.Prelude.{
  ◌≡◌, refl, true, false, Option, none, some, List, [], ◌∷◌, arith, if◌then◌else◌, Option-cases,
  inl, inr,
}
use finvoice.Text.{Text, text_eq}
use finvoice.Text.Laws.{text_eq_iff}
use finvoice.Dict.{Dict, lookup, insert, lookup-insert}
use finvoice.Outcome.{Method, Result, ok, err}

abbrev pub Handler : Type 0 → Type 0 → Type 0
Handler E W = E → Method W (Unit {0})

module _ {E W : Type 0} where
  -- The world after the handlers have run, each in the one that the last left.
  abbrev pub world_after : List (Handler E W) → E → W → W
  world_after [] e w = w
  world_after (h ∷ hs) e w = world_after hs e (h e w).1

  -- What each of them returned or threw.
  abbrev pub results : List (Handler E W) → E → W → List (Result (Unit {0}))
  results [] e w = []
  results (h ∷ hs) e w = (h e w).0 ∷ results hs e (h e w).1

abbrev pub first_rejection : List (Result (Unit {0})) → Result (Unit {0})
first_rejection [] = ok tt
first_rejection (ok _ ∷ rs) = first_rejection rs
first_rejection (err x ∷ rs) = err x

-- What both buses keep under the name of an event.
module _ {A : Type 0} where
  -- `m.get(name) || []`
  unfoldable pub entry : Text → Dict (List A) → List A
  entry name m = elim (lookup name m) [ none ↦ [] | some xs ↦ xs ]

  -- `if (!m.has(name)) { m.set(name, ∅) }`
  unfoldable pub open_entry : Text → Dict (List A) → Dict (List A)
  open_entry name m = elim (lookup name m) [ none ↦ insert name [] m | some _ ↦ m ]

  pub entry-empty : (name : Text) → entry name [] ≡ []
  unfolding entry lookup
  entry-empty name = refl

  -- Opening an entry changes none.
  pub entry-open_entry :
      (name n : Text) (m : Dict (List A)) → entry name (open_entry n m) ≡ entry name m
  unfolding entry open_entry
  entry-open_entry name n m = elim (Option-cases (lookup n m)) [
    | inl missing ↦ ground (arith, missing, lookup-insert n name [] m, text_eq_iff n name)
    | inr (xs, found) ↦ ground (arith, found)
  ]

  pub entry-insert :
      (name n : Text) (xs : List A) (m : Dict (List A))
      → entry name (insert n xs m) ≡ (if text_eq n name then xs else entry name m)
  unfolding entry
  entry-insert name n xs m = ground (arith, lookup-insert n name xs m)
