-- ===== src/Ledger/Entries/Laws.antt =====
-- The guarantees of `createEntry` of ledger/ledger.service.ts, from those of the insertion of an
-- entry that passed its checks.
use red_room_rewards.Prelude.{
  ℕ, String, ◌≡◌, refl, Bool, true, false, Option, none, some, is_empty, str_eq, if◌then◌else◌,
}
use red_room_rewards.Domain.{CreateLedgerEntryRequest, Error, duplicate_key}
use red_room_rewards.Store.{Mongo, Db}
use red_room_rewards.Store.Docs.{LedgerEntry}
use red_room_rewards.Action.{Result, ok, err, atomically, ◌>>=◌, pure, throw, fresh_id}
use red_room_rewards.Action.Keeps.{
  Preorder, Guarantees, Guarantees-pure, Guarantees-throw, Guarantees-lift, Guarantees-atomically,
  Guarantees-attempt, Guarantees-if, Guarantees-fresh_id, Guarantees-current_time, Guarantees-bind,
  Guarantees-bind_lift,
}
use red_room_rewards.WalletEvents.{WalletEvent}
use red_room_rewards.Ledger.Pii.{pii_error}
use red_room_rewards.Ledger.Entries.{
  state_error, reject, entry_doc, map_to_domain, insert_entry, find_by_key, found_or, recover,
  inserted, given_or_fresh, create_entry,
}

-- What the checks of `createEntry` leave of an entry: a balance state that its account can have, and
-- metadata without personal data.
pub record IsRecordable (e : LedgerEntry) : Type 0 where
  pub state : state_error e.account_type e.balance_state ≡ none
  pub clean : pii_error e.metadata ≡ none

reject-ok : (x : Option Error) → reject x ≡ ok tt → x ≡ none
reject-ok none h = refl
reject-ok (some x) h = absurd (cc)

-- An action whose only write of the database is the insertion of a ledger entry keeps every
-- preorder that such an insertion keeps.
module _ (M : Mongo) {G : Db M → Db M → Type 0} (o : Preorder G) where
  module _
      (inserts : (e : LedgerEntry) (d : Db M) → IsRecordable e → G d (insert_entry M e d).1) where
    found_or-Guarantees : (x : Error) (e : Option LedgerEntry) → Guarantees G (found_or M x e)
    unfolding found_or
    found_or-Guarantees x (some e) = Guarantees-pure o (map_to_domain e)
    found_or-Guarantees x none = Guarantees-throw o x

    recover-Guarantees : (key : String) (x : Error) → Guarantees G (recover M key x)
    unfolding recover find_by_key
    recover-Guarantees key (duplicate_key path) = go (str_eq path "idempotencyKey")
      where
        go :
            (b : Bool)
            → Guarantees G (
                if b
                then (atomically (find_by_key M key) >>= found_or M (duplicate_key path))
                else throw (duplicate_key path))
        go true =
            Guarantees-bind o _ _ (Guarantees-atomically o (find_by_key M key) (λ d. o.rel_refl d))
              (found_or-Guarantees (duplicate_key path))
        go false = Guarantees-throw o (duplicate_key path)
    recover-Guarantees key x = Guarantees-throw o x

    inserted-Guarantees : (key : String) (x : Result LedgerEntry) → Guarantees G (inserted M key x)
    unfolding inserted
    inserted-Guarantees key (ok e) = Guarantees-pure o (map_to_domain e)
    inserted-Guarantees key (err x) = recover-Guarantees key x

    given_or_fresh-Guarantees : (t : Option String) → Guarantees G (given_or_fresh M t)
    unfolding given_or_fresh
    given_or_fresh-Guarantees none = Guarantees-fresh_id o
    given_or_fresh-Guarantees (some t) =
        Guarantees-if o (is_empty t) fresh_id (pure t) (Guarantees-fresh_id o) (Guarantees-pure o t)

    insert_doc-Guarantees :
        (r : CreateLedgerEntryRequest) (id transaction : String) (now : ℕ)
        (currency correlation : String)
        → state_error r.account_type r.balance_state ≡ none
        → pii_error r.metadata ≡ none
        → Guarantees {Event = WalletEvent} G
            (atomically (insert_entry M (entry_doc r id transaction now currency correlation)))
    unfolding entry_doc
    insert_doc-Guarantees r id transaction now currency correlation state clean =
        Guarantees-atomically o _ (λ d.
          inserts (entry_doc r id transaction now currency correlation) d
            (record { state = state; clean = clean }))

    pub create_entry-Guarantees :
        (currency : String) (r : CreateLedgerEntryRequest)
        → Guarantees G (create_entry M currency r)
    unfolding create_entry
    create_entry-Guarantees currency r = Guarantees-bind_lift o _ _ (λ _ state.
        Guarantees-bind_lift o _ _ (λ _ clean.
          let insert = λ (id : String) (t : String) (now : ℕ) (cor : String).
            insert_doc-Guarantees r id t now currency cor (reject-ok _ state) (reject-ok _ clean) in
          search
            (
              Guarantees-bind o,
              Guarantees-lift o,
              Guarantees-fresh_id o,
              Guarantees-current_time o,
              Guarantees-attempt o,
              given_or_fresh-Guarantees,
              inserted-Guarantees,
              insert,
            )
            depth 20))
