-- ===== src/EventBus/Redis.antt =====
-- `RedisEventBus` of shared/infrastructure/event-bus/redis-event-bus.ts. Logging is left out. A
-- handler is known by its number, as a JavaScript Set compares functions by identity.
use finvoice.Prelude.{
  inl, inr, Option-cases, ◌≡◌, refl, ℕ, false, none, some, List, [], ◌∷◌, arith, map, if◌then◌else◌,
  any, ◌==◌, length,
}
use finvoice.Text.{Text, text_eq}
use finvoice.Text.Laws.{text_eq_iff}
use finvoice.Dict.{Dict, lookup, insert, erase, IsMap, lookup-insert, lookup-erase, insert-IsMap}
use finvoice.Outcome.{Result, ok, err, Method, ◌>>=◌}
use finvoice.EventBus.{entry, open_entry, entry-insert, entry-open_entry, Handler, world_after}

-- `set.add(h)`: a member keeps its place.
unfoldable pub add_member : ℕ → List ℕ → List ℕ
add_member h [] = h ∷ []
add_member h (g ∷ hs) = if g == h then g ∷ hs else g ∷ add_member h hs

-- `set.delete(h)`
unfoldable pub delete_member : ℕ → List ℕ → List ℕ
delete_member h [] = []
delete_member h (g ∷ hs) = let rest = delete_member h hs in if g == h then hs else g ∷ rest

abbrev pub Subscribers : Type 0
Subscribers = Dict (List ℕ)

unfoldable pub subscribe : Text → ℕ → Subscribers → Subscribers
subscribe name h subs =
    let opened = open_entry name subs in insert name (add_member h (entry name opened)) opened

unfoldable pub unsubscribe : Text → ℕ → Subscribers → Subscribers
unsubscribe name h subs = elim (lookup name subs) [
  | none ↦ subs
  | some hs ↦
      let rest = delete_member h hs in
      if length rest == 0 then erase name subs else insert name rest subs
]

-- What the bus uses of its events, its handlers and Redis; `M` is the type of messages.
pub record Channel (E W M : Type 0) : Type 0 where
  pub event_name : E → Text
  pub handler : ℕ → Handler E W
  -- `JSON.stringify` of the event and the time, and `JSON.parse`
  pub encode : E → M
  pub decode : M → Result E
  -- `redis.publish` on `finvoice:events:${eventName}`
  pub send : Text → M → Method W (Unit {0})

module _ {E W M : Type 0} (c : Channel E W M) where
  -- The loop over the local subscribers: what one throws is caught.
  unfoldable pub notify : List ℕ → E → W → W
  notify [] e w = w
  notify (h ∷ hs) e w = notify hs e (c.handler h e w).1

  notify-world : (hs : List ℕ) (e : E) (w : W) → notify hs e w ≡ world_after (map c.handler hs) e w
  unfolding notify
  notify-world [] e w = refl
  notify-world (h ∷ hs) e w = notify-world hs e (c.handler h e w).1

  unfoldable pub publish : Subscribers → E → Method W (Unit {0})
  publish subs e w = c.send (c.event_name e) (c.encode e) (notify (entry (c.event_name e) subs) e w)

  -- One event after the other, up to the first that fails.
  unfoldable pub publish_many : Subscribers → List E → Method W (Unit {0})
  publish_many subs [] w = (ok tt, w)
  publish_many subs (e ∷ events) w = (publish subs e >>= λ _. publish_many subs events) w

  -- The `pmessage` listener: a message that does not parse is dropped.
  unfoldable pub on_message : Subscribers → Text → M → W → W
  on_message subs name message w = elim (c.decode message) [
    | ok e ↦ notify (entry name subs) e w
    | err _ ↦ w
  ]

  -- Redis delivers to every client that listens, the publisher too. A message that comes back runs
  -- each local subscriber of the event a second time.
  pub on_message-publish :
      (subs : Subscribers) (e e' : E) (w : W)
      → c.decode (c.encode e) ≡ ok e'
      → on_message subs (c.event_name e) (c.encode e) (publish subs e w).1
        ≡ world_after
            (map c.handler (entry (c.event_name e) subs))
            e'
            (c.send
              (c.event_name e)
              (c.encode e)
              (world_after (map c.handler (entry (c.event_name e) subs)) e w)).1
  unfolding publish on_message
  on_message-publish subs e e' w back =
      let hs = entry (c.event_name e) subs in
      let w' = (c.send (c.event_name e) (c.encode e) (notify hs e w)).1 in
      ground (arith, back, notify-world hs e w, notify-world hs e' w')

-- A subscription adds its handler to the set of its name, and to no other.
entry-subscribe :
    (name n : Text) (h : ℕ) (subs : Subscribers)
    → entry name (subscribe n h subs)
      ≡ (if text_eq n name then add_member h (entry name subs) else entry name subs)
unfolding subscribe
entry-subscribe name n h subs = ground (
  arith,
  entry-insert name n (add_member h (entry n (open_entry n subs))) (open_entry n subs),
  entry-open_entry name n subs,
  entry-open_entry n n subs,
  text_eq_iff n name,
)

length_zero : (xs : List ℕ) → length xs ≡ 0 → xs ≡ []
length_zero [] h = refl
length_zero (x ∷ xs) h = absurd (omega arith)

entry-unsubscribe :
    (name n : Text) (h : ℕ) (subs : Subscribers)
    → IsMap subs
    → entry name (unsubscribe n h subs)
      ≡ (if text_eq n name then delete_member h (entry name subs) else entry name subs)
unfolding unsubscribe entry delete_member
entry-unsubscribe name n h subs m = elim (Option-cases (lookup n subs)) [
  | inl missing ↦ ground (arith, missing, text_eq_iff n name)
  | inr (hs, found) ↦ ground (
    arith,
    found,
    text_eq_iff n name,
    lookup-erase n name subs m,
    lookup-insert n name (delete_member h hs) subs,
    length_zero (delete_member h hs),
  )
]

delete_member-add_member :
    (h : ℕ) (hs : List ℕ) → any (λ g. g == h) hs ≡ false → delete_member h (add_member h hs) ≡ hs
unfolding add_member delete_member
delete_member-add_member h [] f = ground arith
delete_member-add_member h (g ∷ hs) f = ground (arith, delete_member-add_member h hs)

pub subscribe-IsMap :
    (n : Text) (h : ℕ) (subs : Subscribers) → IsMap subs → IsMap (subscribe n h subs)
unfolding subscribe open_entry
subscribe-IsMap n h subs m = elim (Option-cases (lookup n subs)) [
  | inl missing ↦ ground (
    arith,
    missing,
    insert-IsMap n [] subs m,
    insert-IsMap n (add_member h (entry n (insert n [] subs))) (insert n [] subs),
  )
  | inr (hs, found) ↦ ground (arith, found, m, insert-IsMap n (add_member h (entry n subs)) subs m)
]

-- Unsubscribing a handler that was not subscribed before undoes its subscription: the handlers of
-- every name are again those before.
pub unsubscribe-subscribe :
    (name n : Text) (h : ℕ) (subs : Subscribers)
    → IsMap subs
    → any (λ g. g == h) (entry n subs) ≡ false
    → entry name (unsubscribe n h (subscribe n h subs)) ≡ entry name subs
unsubscribe-subscribe name n h subs m new = ground (
  arith,
  entry-unsubscribe name n h (subscribe n h subs) (subscribe-IsMap n h subs m),
  entry-subscribe name n h subs,
  text_eq_iff n name,
  delete_member-add_member h (entry n subs) new,
)
