-- ===== src/Tests/EventBus.antt =====
-- The event buses at concrete inputs. The world is the log of the handlers that ran.
use finvoice.Prelude.{◌==◌, if◌then◌else◌, ◌≡◌, refl, ℕ, List, [], ◌∷◌, ◌++◌}
use finvoice.Text.{Text, text}
use finvoice.Dict.{lookup}
use finvoice.Outcome.{ok, err, error}
use finvoice.EventBus.{Handler, entry}
use finvoice.EventBus.InProcess.{publish, subscribe_all, subscribed, publish-subscribe_all}
use finvoice.EventBus.Redis.{Channel, Subscribers, on_message, on_message-publish}
use finvoice.EventBus.Redis.{publish as publish_redis}

-- An event is its name; a handler writes its number, and the second one then throws.
abbrev writes : ℕ → Handler Text (List ℕ)
writes n e w = (if n == 2 then err (error "broken" []) else ok tt, w ++ (n ∷ []))

abbrev subs : List (Text × Handler Text (List ℕ))
subs =
    (text "InvoicePaid", writes 1)
    ∷ (text "InvoiceSent", writes 4)
    ∷ (text "InvoicePaid", writes 2)
    ∷ (text "InvoicePaid", writes 3)
    ∷ []

publish-subscribe_all_example :
    ((publish (λ e. e) (subscribe_all subs []) (text "InvoicePaid") []).1 ≡ 1 ∷ 2 ∷ 3 ∷ [])
    × ((publish (λ e. e) (subscribe_all subs []) (text "InvoicePaid") []).0
        ≡ err (error "broken" []))
unfolding subscribed
publish-subscribe_all_example = publish-subscribe_all (λ e. e) subs (text "InvoicePaid") []

-- A Redis that only takes note of the message, as 9.
abbrev channel : Channel Text (List ℕ) Text
channel = record {
  event_name = λ e. e;
  handler = writes;
  encode = λ e. e;
  decode = ok;
  send = λ _ _ w. (ok tt, w ++ (9 ∷ []));
}

abbrev members : Subscribers
members = (text "InvoicePaid", 1 ∷ 2 ∷ []) ∷ []

on_message-publish_example :
    on_message channel members
      (text "InvoicePaid")
      (text "InvoicePaid")
      (publish_redis channel members (text "InvoicePaid") []).1
    ≡ 1 ∷ 2 ∷ 9 ∷ 1 ∷ 2 ∷ []
unfolding entry lookup
on_message-publish_example =
    on_message-publish channel members (text "InvoicePaid") (text "InvoicePaid") [] refl
