-- ===== src/Events/Bus/Order.antt =====
-- The order of the subscribers of the event bus of events/event-bus.ts.
use red_room_rewards.Prelude.{
  String, Bool, true, ◌≡◌, refl, List, [], ◌∷◌, ◌++◌, All, any, keep_if, sort_by-All,
  sort_by-IsSorted, IsSorted, Bool-cases, inl, inr,
}
use red_room_rewards.Store.Table.{Table, get, put}
use red_room_rewards.Events.Types.{WalletEventType, same_event_type, EventSubscription}
use red_room_rewards.Events.Bus.{
  EventBusConfig, EventBus, new_bus, by_event_type, priority_of, or_none, subscribers_of,
  subscribe_to, subscribe_each, subscribe, unsubscribe_all, unsubscribe, mark_processed, cleanup,
  clear_subscriptions,
}
use red_room_rewards.Events.Bus.Publishing.{publish-keeps}
use red_room_rewards.Events.Bus.Calls.{
  Call, subscribes, unsubscribes, publishes, cleans, clears, perform, perform_all,
}

abbrev pub names_type : WalletEventType → EventSubscription → Bool
names_type t s = any (same_event_type t) s.event_types

-- The subscribers of a type have asked for it, and stand by ascending priority number.
pub record IsOrdered (t : WalletEventType) (subs : List EventSubscription) : Type 0 where
  pub by_priority : IsSorted priority_of subs
  pub asked_for : All (λ s. names_type t s ≡ true) subs

abbrev OrderedTable : Table WalletEventType (List EventSubscription) → Type 0
OrderedTable [] = Unit
OrderedTable ((t, subs) ∷ rest) = IsOrdered t subs × OrderedTable rest

IsOrdered-nil : (t : WalletEventType) → IsOrdered t []
IsOrdered-nil t = record { by_priority = tt; asked_for = tt }

get-IsOrdered :
    (t : WalletEventType) (table : Table WalletEventType (List EventSubscription))
    → OrderedTable table
    → IsOrdered t (or_none (get by_event_type t table))
get-IsOrdered t [] h = IsOrdered-nil t
get-IsOrdered t ((u, subs) ∷ rest) (h, hs) = elim (Bool-cases (same_event_type t u)) [
  | inl same ↦ rw same (rw ((by_event_type.beq_iff t u).0 same) h)
  | inr other ↦ rw other (get-IsOrdered t rest hs)
]

put-OrderedTable :
    (t : WalletEventType) (subs : List EventSubscription)
    (table : Table WalletEventType (List EventSubscription))
    → IsOrdered t subs
    → OrderedTable table
    → OrderedTable (put by_event_type t subs table)
put-OrderedTable t subs [] h hs = (h, tt)
put-OrderedTable t subs ((u, old) ∷ rest) h (ho, hs) = elim (Bool-cases (same_event_type t u)) [
  | inl same ↦ rw same (h, hs)
  | inr other ↦ rw other (ho, put-OrderedTable t subs rest h hs)
]

All-append :
    (P : EventSubscription → Type 0) (xs ys : List EventSubscription)
    → All P xs
    → All P ys
    → All P (xs ++ ys)
All-append P [] ys hx hy = hy
All-append P (x ∷ xs) ys (h, hx) hy = (h, All-append P xs ys hx hy)

keep_if-All :
    (P : EventSubscription → Type 0) (p : EventSubscription → Bool) (xs : List EventSubscription)
    → All P xs
    → All P (keep_if p xs)
keep_if-All P p [] h = tt
keep_if-All P p (x ∷ xs) (h, hs) = elim (Bool-cases (p x)) [
  | inl kept ↦ rw kept (h, keep_if-All P p xs hs)
  | inr gone ↦ rw gone (keep_if-All P p xs hs)
]

keep_if-IsSorted :
    (p : EventSubscription → Bool) (xs : List EventSubscription)
    → IsSorted priority_of xs
    → IsSorted priority_of (keep_if p xs)
keep_if-IsSorted p [] h = tt
keep_if-IsSorted p (x ∷ xs) (h, hs) = elim (Bool-cases (p x)) [
  | inl kept ↦ rw kept (keep_if-All _ p xs h, keep_if-IsSorted p xs hs)
  | inr gone ↦ rw gone (keep_if-IsSorted p xs hs)
]

unsubscribe_all-OrderedTable :
    (id : String) (table : Table WalletEventType (List EventSubscription))
    → OrderedTable table
    → OrderedTable (unsubscribe_all id table)
unfolding unsubscribe_all
unsubscribe_all-OrderedTable id [] h = tt
unsubscribe_all-OrderedTable id ((t, subs) ∷ rest) (h, hs) = (
  record {
    by_priority = keep_if-IsSorted _ subs h.by_priority;
    asked_for = keep_if-All _ _ subs h.asked_for;
  },
  unsubscribe_all-OrderedTable id rest hs,
)

subscribe_to-OrderedTable :
    (s : EventSubscription) (t : WalletEventType) (bus : EventBus)
    → names_type t s ≡ true
    → OrderedTable bus.subscriptions
    → OrderedTable (subscribe_to s t bus).subscriptions
unfolding subscribe_to
subscribe_to-OrderedTable s t bus named h =
    let old = get-IsOrdered t bus.subscriptions h in
    put-OrderedTable t _ bus.subscriptions
      (record {
        by_priority = sort_by-IsSorted priority_of (subscribers_of t bus ++ s ∷ []);
        asked_for =
            sort_by-All priority_of (λ x. names_type t x ≡ true) (subscribers_of t bus ++ s ∷ [])
              (All-append (λ x. names_type t x ≡ true) (subscribers_of t bus) (s ∷ []) old.asked_for
                (named, tt));
      })
      h

subscribe_each-OrderedTable :
    (s : EventSubscription) (ts : List WalletEventType) (bus : EventBus)
    → All (λ t. names_type t s ≡ true) ts
    → OrderedTable bus.subscriptions
    → OrderedTable (subscribe_each s ts bus).subscriptions
unfolding subscribe_each
subscribe_each-OrderedTable s [] bus named h = h
subscribe_each-OrderedTable s (t ∷ ts) bus (named, more) h =
    subscribe_each-OrderedTable s ts (subscribe_to s t bus) more
      (subscribe_to-OrderedTable s t bus named h)

same_event_type_refl : (t : WalletEventType) → same_event_type t t ≡ true
same_event_type_refl t = (by_event_type.beq_iff t t).1 refl

any-weaken :
    (t u : WalletEventType) (ts : List WalletEventType)
    → any (same_event_type t) ts ≡ true
    → any (same_event_type t) (u ∷ ts) ≡ true
any-weaken t u ts h = elim (Bool-cases (same_event_type t u)) [
  | inl same ↦ rw same refl
  | inr other ↦ rw other h
]

All-weaken :
    (u : WalletEventType) (ts rest : List WalletEventType)
    → All (λ t. any (same_event_type t) ts ≡ true) rest
    → All (λ t. any (same_event_type t) (u ∷ ts) ≡ true) rest
All-weaken u ts [] h = tt
All-weaken u ts (t ∷ rest) (h, hs) = (any-weaken t u ts h, All-weaken u ts rest hs)

-- A list names each of its types.
all_named : (ts : List WalletEventType) → All (λ t. any (same_event_type t) ts ≡ true) ts
all_named [] = tt
all_named (t ∷ ts) = (rw (same_event_type_refl t) refl, All-weaken t ts ts (all_named ts))

perform-OrderedTable :
    (cfg : EventBusConfig) (c : Call) (bus : EventBus)
    → OrderedTable bus.subscriptions
    → OrderedTable (perform cfg c bus).subscriptions
unfolding perform subscribe unsubscribe mark_processed cleanup clear_subscriptions
perform-OrderedTable cfg (subscribes s) bus h =
    subscribe_each-OrderedTable s s.event_types bus (all_named s.event_types) h
perform-OrderedTable cfg (unsubscribes id) bus h =
    unsubscribe_all-OrderedTable id bus.subscriptions h
perform-OrderedTable cfg (publishes now e) bus h =
    publish-keeps cfg now e bus (λ b. OrderedTable b.subscriptions) h h
perform-OrderedTable cfg (cleans now) bus h = h
perform-OrderedTable cfg clears bus h = tt

perform_all-OrderedTable :
    (cfg : EventBusConfig) (cs : List Call) (bus : EventBus)
    → OrderedTable bus.subscriptions
    → OrderedTable (perform_all cfg cs bus).subscriptions
unfolding perform_all
perform_all-OrderedTable cfg [] bus h = h
perform_all-OrderedTable cfg (c ∷ cs) bus h =
    perform_all-OrderedTable cfg cs (perform cfg c bus) (perform-OrderedTable cfg c bus h)

-- Whatever calls have been made of a new bus, the subscribers that a publication goes through have
-- subscribed to the event's type, and stand by ascending priority number, one that gives none or
-- zero counting as 100.
pub perform_all-IsOrdered :
    (cfg : EventBusConfig) (cs : List Call) (t : WalletEventType)
    → IsOrdered t (subscribers_of t (perform_all cfg cs new_bus))
perform_all-IsOrdered cfg cs t = get-IsOrdered t _ (perform_all-OrderedTable cfg cs new_bus tt)
