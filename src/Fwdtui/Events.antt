-- ===== src/Fwdtui/Events.antt =====
-- pkg/fwdtui/events/bus.go: events are queued and handed to the handlers that are subscribed. A handler
-- is known by its number, and a dispatch is the row of calls that it makes; a handler that panics is
-- recovered from, so that it does not end the row.
pub mod Times
pub mod Calls
use kubefwd.Base.{
  ℕ, ◌+◌, ◌%◌, ◌^◌, List, [], ◌∷◌, ◌++◌, map, Option, none, some, ℤ, pos, negsuc, nat_key, Dict,
  lookup, insert, nat_beq, ltb, length, if◌then◌else◌,
}

-- `events.Event`: its type, by its number, and all else as one number.
pub record Event : Type 0 where
  pub event_type : ℕ
  pub payload : ℕ

-- `handlerEntry`
pub record HandlerEntry : Type 0 where
  pub id : ℕ
  pub handler : ℕ

-- `Bus`; the channel holds at most `capacity` events.
pub record Bus : Type 0 where
  pub handlers : Dict ℕ (List HandlerEntry)
  pub all_handle : List HandlerEntry
  pub next_id : ℕ
  pub event_chan : List Event
  pub capacity : ℕ

unfoldable pub buffer_size : ℤ → ℕ
buffer_size (negsuc n) = 1000
buffer_size (pos n) = if nat_beq n 0 then 1000 else n

-- `NewBus`
unfoldable pub new_bus : ℤ → Bus
new_bus n = record {
  handlers = [];
  all_handle = [];
  next_id = 0;
  event_chan = [];
  capacity = buffer_size n;
}

-- `b.handlers[eventType]`; a missing entry reads as nil.
abbrev pub or_nil : Option (List HandlerEntry) → List HandlerEntry
or_nil none = []
or_nil (some entries) = entries

unfoldable pub handlers_of : ℕ → Bus → List HandlerEntry
handlers_of type b = or_nil (lookup type b.handlers)

-- `b.nextID++` of a uint64.
abbrev pub id_after : ℕ → ℕ
id_after n = (n + 1) % 2 ^ 64

-- `Subscribe`: the number by which the returned function unsubscribes, and the bus.
unfoldable pub subscribe : ℕ → ℕ → Bus → ℕ × Bus
subscribe type handler b = (
  b.next_id,
  record b {
    handlers =
        insert type (handlers_of type b ++ record { id = b.next_id; handler = handler } ∷ [])
          b.handlers;
    next_id = id_after b.next_id;
  },
)

-- `SubscribeAll`
unfoldable pub subscribe_all : ℕ → Bus → ℕ × Bus
subscribe_all handler b = (
  b.next_id,
  record b {
    all_handle = b.all_handle ++ record { id = b.next_id; handler = handler } ∷ [];
    next_id = id_after b.next_id;
  },
)

-- The last element put first.
unfoldable pub last_first : List HandlerEntry → List HandlerEntry
last_first [] = []
last_first (e ∷ rest) = elim (last_first rest) [ [] ↦ e ∷ [] | l ∷ others ↦ l ∷ e ∷ others ]

-- The first entry with the number is replaced by the last one, and the slice is cut.
unfoldable pub swap_remove : ℕ → List HandlerEntry → List HandlerEntry
unfolding last_first
swap_remove id [] = []
swap_remove id (e ∷ rest) =
    let kept = swap_remove id rest in if nat_beq e.id id then last_first rest else e ∷ kept

-- The function that `Subscribe` returned, and that of `SubscribeAll`.
unfoldable pub unsubscribe : ℕ → ℕ → Bus → Bus
unfolding swap_remove
unsubscribe type id b = elim (lookup type b.handlers) [
  | none ↦ b
  | some entries ↦ record b { handlers = insert type (swap_remove id entries) b.handlers }
]

unfoldable pub unsubscribe_all : ℕ → Bus → Bus
unfolding swap_remove
unsubscribe_all id b = record b { all_handle = swap_remove id b.all_handle }

-- `Publish`
unfoldable pub publish : Event → Bus → Bus
publish event b =
    if ltb (length b.event_chan) b.capacity
    then record b { event_chan = b.event_chan ++ event ∷ [] }
    else b

-- `dispatch`: the entries whose handlers are called, in their order.
unfoldable pub dispatch : Event → Bus → List HandlerEntry
unfolding handlers_of
dispatch event b = handlers_of event.event_type b ++ b.all_handle

-- `case event := <-b.eventChan: b.dispatch(event)`; `none` where the channel is empty.
unfoldable pub receive : Bus → Option (List HandlerEntry × Bus)
unfolding dispatch
receive b = elim b.event_chan [
  | [] ↦ none
  | event ∷ rest ↦ some (dispatch event b, record b { event_chan = rest })
]
