-- ===== src/EventBus/InProcess.antt =====
-- `InProcessEventBus` of shared/kernel/event-bus.ts.
use finvoice.Prelude.{inr, inl, sym, ◌≡◌, refl, List, [], ◌∷◌, ◌++◌, arith, if◌then◌else◌}
use mathlib.Core.List.{append-nil, append_assoc}
use finvoice.Text.{Text, text_eq}
use finvoice.Text.Laws.{text_eq_iff}
use finvoice.Dict.{Dict, insert}
use finvoice.Outcome.{Result-cases, ok, err, Method}
use finvoice.EventBus.{
  first_rejection, results, entry, open_entry, entry-insert, entry-open_entry, entry-empty, Handler,
  world_after,
}

module _ {E W : Type 0} where
  unfoldable pub subscribe :
      Text → Handler E W → Dict (List (Handler E W)) → Dict (List (Handler E W))
  subscribe name handler bus =
      let opened = open_entry name bus in insert name (entry name opened ++ (handler ∷ [])) opened

  -- `Promise.all`: every handler is called, and the first rejection is the result.
  unfoldable pub call_all : List (Handler E W) → E → Method W (Unit {0})
  call_all [] e w = (ok tt, w)
  call_all (h ∷ hs) e w =
      let (result, w') = h e w in
      let (rest, w'') = call_all hs e w' in (elim result [ ok _ ↦ rest | err x ↦ err x ], w'')

  unfoldable pub publish : (E → Text) → Dict (List (Handler E W)) → E → Method W (Unit {0})
  publish event_name bus e = call_all (entry (event_name e) bus) e

  unfoldable pub publish_many :
      (E → Text) → Dict (List (Handler E W)) → List E → Method W (Unit {0})
  publish_many event_name bus [] w = (ok tt, w)
  publish_many event_name bus (e ∷ events) w =
      let (result, w') = publish event_name bus e w in
      let (rest, w'') = publish_many event_name bus events w' in
      (elim result [ ok _ ↦ rest | err x ↦ err x ], w'')

  unfoldable pub subscribe_all :
      List (Text × Handler E W) → Dict (List (Handler E W)) → Dict (List (Handler E W))
  subscribe_all [] bus = bus
  subscribe_all ((name, h) ∷ subs) bus = subscribe_all subs (subscribe name h bus)

  -- The handlers that were subscribed for one name, in their order.
  unfoldable pub subscribed : Text → List (Text × Handler E W) → List (Handler E W)
  subscribed name [] = []
  subscribed name ((n, h) ∷ subs) =
      let rest = subscribed name subs in if text_eq n name then h ∷ rest else rest

  -- A subscription adds its handler behind those of its name, and to no other.
  entry-subscribe :
      (name n : Text) (h : Handler E W) (bus : Dict (List (Handler E W)))
      → entry name (subscribe n h bus)
        ≡ (if text_eq n name then entry name bus ++ (h ∷ []) else entry name bus)
  unfolding subscribe
  entry-subscribe name n h bus = ground (
    arith,
    entry-insert name n (entry n (open_entry n bus) ++ (h ∷ [])) (open_entry n bus),
    entry-open_entry name n bus,
    text_eq_iff n name,
  )

  entry-subscribe_all :
      (name : Text) (subs : List (Text × Handler E W)) (bus : Dict (List (Handler E W)))
      → entry name (subscribe_all subs bus) ≡ entry name bus ++ subscribed name subs
  unfolding subscribe_all subscribed
  entry-subscribe_all name [] bus = sym (append-nil (entry name bus))
  entry-subscribe_all name ((n, h) ∷ subs) bus = ground (
    arith,
    entry-subscribe_all name subs (subscribe n h bus),
    entry-subscribe name n h bus,
    append_assoc (entry name bus) (h ∷ []) (subscribed name subs),
  )

  call_all-world :
      (hs : List (Handler E W)) (e : E) (w : W) → (call_all hs e w).1 ≡ world_after hs e w
  unfolding call_all
  call_all-world [] e w = refl
  call_all-world (h ∷ hs) e w = call_all-world hs e (h e w).1

  call_all-result :
      (hs : List (Handler E W)) (e : E) (w : W)
      → (call_all hs e w).0 ≡ first_rejection (results hs e w)
  unfolding call_all
  call_all-result [] e w = refl
  call_all-result (h ∷ hs) e w = elim (Result-cases (h e w).0) [
    | inl (_, done) ↦ rw done (call_all-result hs e (h e w).1)
    | inr (x, failed) ↦ rw failed refl
  ]

  -- Publishing an event on a bus with these subscriptions calls the handlers of the event's name, in
  -- the order in which they were subscribed, and no others; each runs in the world that the last
  -- left, also where one before it was rejected, and the first rejection is the result.
  pub publish-subscribe_all :
      (event_name : E → Text) (subs : List (Text × Handler E W)) (e : E) (w : W)
      → ((publish event_name (subscribe_all subs []) e w).1
          ≡ world_after (subscribed (event_name e) subs) e w)
        × ((publish event_name (subscribe_all subs []) e w).0
            ≡ first_rejection (results (subscribed (event_name e) subs) e w))
  unfolding publish
  publish-subscribe_all event_name subs e w =
      rw (entry-subscribe_all (event_name e) subs [], entry-empty (event_name e))
        (
          call_all-world (subscribed (event_name e) subs) e w,
          call_all-result (subscribed (event_name e) subs) e w,
        )
