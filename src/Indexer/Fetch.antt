-- ===== src/Indexer/Fetch.antt =====
-- `fetchEventsInRange` and `digestEvents` of eventIndexer.ts.
pub mod Laws
use dukapay.Base.{
  ℕ, zero, suc, ◌+◌, ◌-◌, max, Bool, true, false, not, ◌&&◌, ◌||◌, Option, none, some, List, [],
  ◌∷◌, ◌++◌, leb, ltb, ◌==◌, any, if◌then◌else◌,
}
use dukapay.Indexer.{
  RawEvent, World, Error, fatal_error, out_of_pages, M, pure, throw, Result, ok, err, ◌>>=◌,
}

-- A ledger range, or the cursor of a later page. The limit and the filters are the same on every call.
pub data Request : Type 0 where
  ledger_range : ℕ → ℕ → Request
  from_cursor : ℕ → Request

-- `nextCursor ?? cursor` of a response; a cursor 0 is the empty text.
pub record Page : Type 0 where
  pub events : List RawEvent
  pub next_cursor : Option ℕ

-- The Soroban RPC: the latest ledger, if it tells one, and a page of events or an exception.
pub record Rpc : Type 0 where
  pub latest : Option ℕ
  pub get_events : Request → Option Page

abbrev pub in_range : ℕ → ℕ → RawEvent → Bool
in_range start_ledger end_ledger e = leb start_ledger e.ledger && leb e.ledger end_ledger

unfoldable pub keep_in_range : ℕ → ℕ → List RawEvent → List RawEvent
keep_in_range start_ledger end_ledger [] = []
keep_in_range start_ledger end_ledger (e ∷ es) =
    let rest = keep_in_range start_ledger end_ledger es in
    if in_range start_ledger end_ledger e then e ∷ rest else rest

abbrev pub request_of : ℕ → ℕ → Option ℕ → Request
request_of start_ledger end_ledger none = ledger_range start_ledger end_ledger
request_of start_ledger end_ledger (some c) =
    if c == 0 then ledger_range start_ledger end_ledger else from_cursor c

abbrev pub is_cursor : Option ℕ → ℕ → Bool
is_cursor none c = false
is_cursor (some k) c = k == c

abbrev pub is_empty : List RawEvent → Bool
is_empty [] = true
is_empty (e ∷ es) = false

-- The cursor with which the loop goes on, if it does.
abbrev pub continue_with : Option ℕ → Option ℕ → Bool → Option ℕ
continue_with none cursor stop = none
continue_with (some next) cursor stop =
    if (next == 0) || (is_cursor cursor next || stop) then none else some next

abbrev pub cursor_after : ℕ → ℕ → Option ℕ → Page → Option ℕ
cursor_after start_ledger end_ledger cursor page = continue_with page.next_cursor cursor (
    is_empty (keep_in_range start_ledger end_ledger page.events)
    || any (λ e. ltb end_ledger e.ledger) page.events)

-- The loop over the pages, with as many pages as it may ask for.
unfoldable pub fetch_pages : Rpc → ℕ → ℕ → ℕ → Option ℕ → Result (List RawEvent)
fetch_pages rpc start_ledger end_ledger zero cursor = err out_of_pages
fetch_pages rpc start_ledger end_ledger (suc pages) cursor =
    elim (rpc.get_events (request_of start_ledger end_ledger cursor)) [
      | none ↦ err fatal_error
      | some page ↦ elim (cursor_after start_ledger end_ledger cursor page) [
        | none ↦ ok (keep_in_range start_ledger end_ledger page.events)
        | some next ↦ elim (fetch_pages rpc start_ledger end_ledger pages (some next)) [
          | ok rest ↦ ok (keep_in_range start_ledger end_ledger page.events ++ rest)
          | err e ↦ err e
        ]
      ]
    ]

-- `Array.prototype.sort`, which is stable.
unfoldable pub insert_sorted :
    (RawEvent → RawEvent → Bool) → RawEvent → List RawEvent → List RawEvent
insert_sorted before e [] = e ∷ []
insert_sorted before e (f ∷ fs) = if before e f then e ∷ f ∷ fs else f ∷ insert_sorted before e fs

unfoldable pub sort_events : (RawEvent → RawEvent → Bool) → List RawEvent → List RawEvent
sort_events before [] = []
sort_events before (e ∷ es) = insert_sorted before e (sort_events before es)

abbrev pub by_ledger : RawEvent → RawEvent → Bool
by_ledger a b = leb a.ledger b.ledger

-- Numbers stand for ids in the order of `localeCompare`.
abbrev pub by_ledger_and_id : RawEvent → RawEvent → Bool
by_ledger_and_id a b = if a.ledger == b.ledger then leb a.id b.id else ltb a.ledger b.ledger

-- `fetchEventsInRange`.
unfoldable pub fetch_events_in_range : Rpc → ℕ → ℕ → ℕ → Result (List RawEvent)
fetch_events_in_range rpc pages start_ledger end_ledger =
    elim (fetch_pages rpc start_ledger end_ledger pages none) [
      | ok es ↦ ok (sort_events by_ledger es)
      | err e ↦ err e
    ]

-- `digestEvents`; `hash` is SHA-256 of the JSON text of a list of events.
unfoldable pub digest_events : (List RawEvent → ℕ) → List RawEvent → ℕ
digest_events hash es = hash (sort_events by_ledger_and_id es)
