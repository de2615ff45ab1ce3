-- ===== src/Indexer/Fetch/Laws.antt =====
-- Laws of `fetchEventsInRange` of eventIndexer.ts.
use mathlib.Core.Path.{subst}
use dukapay.Base.{
  ℕ, zero, suc, ◌≡◌, ◌≢◌, ◌≤◌, ◌<◌, Bool, true, false, Option, none, some, Option-cases, Bool-cases,
  ◌⊎◌, ◌∙◌, sym, refl, ap, ltb, ◌||◌, any, inl, inr, List, [], ◌∷◌, ◌++◌, All, leb, arith,
  if◌then◌else◌,
}
use dukapay.Indexer.{RawEvent, Result, ok, err, out_of_pages}
use dukapay.Indexer.Fetch.{
  Page, Rpc, in_range, keep_in_range, request_of, cursor_after, continue_with, is_cursor, is_empty,
  fetch_pages, insert_sorted, sort_events, by_ledger, fetch_events_in_range,
}

append_ends :
    (es : List RawEvent) (r : Result (List RawEvent))
    → r ≢ err out_of_pages
    → (elim r [ ok rest ↦ ok (es ++ rest) | err e ↦ err e ]) ≢ err out_of_pages
append_ends es (ok rest) n e = absurd (ground arith)
append_ends es (err f) n e = n e

-- The ledger of the event is in the range.
abbrev pub IsInRange : ℕ → ℕ → RawEvent → Type 0
IsInRange start_ledger end_ledger e = (start_ledger ≤ e.ledger) × (e.ledger ≤ end_ledger)

abbrev Any : (RawEvent → Type 0) → List RawEvent → Type 0
Any P [] = ⊥
Any P (e ∷ es) = P e ⊎ Any P es

module _ (rpc : Rpc) (start_ledger end_ledger : ℕ) where
  -- A page that has an event of the range and none beyond it, and names a cursor that is neither empty nor
  -- the one it was asked with, brings the cursor nearer to the end.
  abbrev pub Progresses : (Option ℕ → ℕ) → Type 0
  Progresses left =
      (cursor : Option ℕ) (page : Page) (next : ℕ)
      → rpc.get_events (request_of start_ledger end_ledger cursor) ≡ some page
      → page.next_cursor ≡ some next
      → next ≢ 0
      → cursor ≢ some next
      → Any (IsInRange start_ledger end_ledger) page.events
      → All (λ e. e.ledger ≤ end_ledger) page.events
      → left (some next) < left cursor

  -- The same of every page after which the loop goes on.
  abbrev Advances : (Option ℕ → ℕ) → Type 0
  Advances left =
      (cursor : Option ℕ) (page : Page) (next : ℕ)
      → rpc.get_events (request_of start_ledger end_ledger cursor) ≡ some page
      → cursor_after start_ledger end_ledger cursor page ≡ some next
      → left (some next) < left cursor

  fetch_pages_ends :
      (left : Option ℕ → ℕ) (pages : ℕ) (cursor : Option ℕ)
      → Advances left
      → left cursor < pages
      → fetch_pages rpc start_ledger end_ledger pages cursor ≢ err out_of_pages
  unfolding fetch_pages
  fetch_pages_ends left zero cursor adv h = absurd (omega arith)
  fetch_pages_ends left (suc n) cursor adv h =
      elim (Option-cases (rpc.get_events (request_of start_ledger end_ledger cursor))) [
        | inl failed ↦ rw (fetch_pages, failed) (λ e. absurd (ground arith))
        | inr (page, got) ↦ elim (Option-cases (cursor_after start_ledger end_ledger cursor page)) [
          | inl ended ↦ rw (fetch_pages, got, ended) (λ e. absurd (ground arith))
          | inr (next, on) ↦
              rw (fetch_pages, got, on)
                (append_ends (keep_in_range start_ledger end_ledger page.events) _ (
                  fetch_pages_ends left n (some next) adv
                    (omega (arith, adv cursor page next got on))))
        ]
      ]

  sort_ends :
      (r : Result (List RawEvent))
      → r ≢ err out_of_pages
      → (elim r [ ok es ↦ ok (sort_events by_ledger es) | err e ↦ err e ]) ≢ err out_of_pages
  sort_ends (ok es) n e = absurd (ground arith)
  sort_ends (err f) n e = n e

  Any-keep_in_range :
      (es : List RawEvent)
      → is_empty (keep_in_range start_ledger end_ledger es) ≡ false
      → Any (IsInRange start_ledger end_ledger) es
  unfolding keep_in_range
  Any-keep_in_range [] h = absurd (ground arith)
  Any-keep_in_range (e ∷ es) h = elim (Bool-cases (in_range start_ledger end_ledger e)) [
    | inl inside ↦ inl ((ground arith), (ground arith))
    | inr outside ↦ inr (
        Any-keep_in_range es (
          subst
            (λ b.
              is_empty (
                if b
                then e ∷ keep_in_range start_ledger end_ledger es
                else keep_in_range start_ledger end_ledger es)
              ≡ false)
            outside h))
  ]

  All-not_beyond :
      (es : List RawEvent)
      → any (λ e. ltb end_ledger e.ledger) es ≡ false
      → All (λ e. e.ledger ≤ end_ledger) es
  All-not_beyond [] h = tt
  All-not_beyond (e ∷ es) h = ((ground arith), All-not_beyond es (ground arith))

  cursor_after-next :
      (cursor : Option ℕ) (page : Page) (next : ℕ)
      → cursor_after start_ledger end_ledger cursor page ≡ some next
      → (page.next_cursor ≡ some next)
        × ((next ≢ 0)
            × ((cursor ≢ some next)
                × (Any (IsInRange start_ledger end_ledger) page.events
                    × All (λ e. e.ledger ≤ end_ledger) page.events)))
  cursor_after-next cursor page next e = go page.next_cursor refl e
    where
      other : (c : Option ℕ) → is_cursor c next ≡ false → c ≢ some next
      other none h k = absurd (ground arith)
      other (some c) h k = let same : c ≡ next = cc in absurd (ground arith)

      go :
          (o : Option ℕ)
          → page.next_cursor ≡ o
          → continue_with o cursor (
              is_empty (keep_in_range start_ledger end_ledger page.events)
              || any (λ e. ltb end_ledger e.ledger) page.events)
            ≡ some next
          → (page.next_cursor ≡ some next)
            × ((next ≢ 0)
                × ((cursor ≢ some next)
                    × (Any (IsInRange start_ledger end_ledger) page.events
                        × All (λ e. e.ledger ≤ end_ledger) page.events)))
      go none named k = absurd (ground arith)
      go (some c) named k =
          let same : c ≡ next = ground arith in
          (
            (named ∙ ap some same),
            (
              (λ z. ground arith),
              (
                other cursor (rw (sym same) (ground arith)),
                (
                  Any-keep_in_range page.events (ground arith),
                  All-not_beyond page.events (ground arith),
                ),
              ),
            ),
          )

  -- The loop over the pages comes to its end: as many pages as `left` gives, and one, are enough, where
  -- `left` falls with every page that has an event of the range and none beyond it, and names a new cursor
  -- that is not empty. Of all other pages nothing is asked.
  pub fetch_events_in_range_ends :
      (left : Option ℕ → ℕ) (pages : ℕ)
      → Progresses left
      → left none < pages
      → fetch_events_in_range rpc pages start_ledger end_ledger ≢ err out_of_pages
  unfolding fetch_events_in_range
  fetch_events_in_range_ends left pages progress h =
      sort_ends (fetch_pages rpc start_ledger end_ledger pages none) (
        fetch_pages_ends left pages none
          (λ cursor page next got on.
            let (named, (k, (new, (inside, within)))) = cursor_after-next cursor page next on in
            progress cursor page next got named k new inside within)
          h)

-- The ledgers of the events ascend.
abbrev pub IsAscending : List RawEvent → Type 0
IsAscending [] = Unit {0}
IsAscending (e ∷ es) = All (λ f. e.ledger ≤ f.ledger) es × IsAscending es

All-append :
    (P : RawEvent → Type 0) (es fs : List RawEvent) → All P es → All P fs → All P (es ++ fs)
All-append P [] fs h k = k
All-append P (e ∷ es) fs (h, hs) k = (h, All-append P es fs hs k)

All-insert_sorted :
    (P : RawEvent → Type 0) (before : RawEvent → RawEvent → Bool) (e : RawEvent)
    (es : List RawEvent)
    → P e
    → All P es
    → All P (insert_sorted before e es)
unfolding insert_sorted
All-insert_sorted P before e [] h hs = (h, tt)
All-insert_sorted P before e (f ∷ fs) h (k, ks) =
    elim (before e f) as (λ b. All P (if b then e ∷ f ∷ fs else f ∷ insert_sorted before e fs)) [
      | true ↦ (h, (k, ks))
      | false ↦ (k, All-insert_sorted P before e fs h ks)
    ]

All-sort_events :
    (P : RawEvent → Type 0) (before : RawEvent → RawEvent → Bool) (es : List RawEvent)
    → All P es
    → All P (sort_events before es)
unfolding sort_events
All-sort_events P before [] h = tt
All-sort_events P before (e ∷ es) (h, hs) =
    All-insert_sorted P before e (sort_events before es) h (All-sort_events P before es hs)

All-weaken :
    (a b : ℕ) (es : List RawEvent) → a ≤ b → All (λ f. b ≤ f.ledger) es → All (λ f. a ≤ f.ledger) es
All-weaken a b [] h hs = tt
All-weaken a b (e ∷ es) h (k, ks) = (omega arith, All-weaken a b es h ks)

insert_sorted-IsAscending :
    (e : RawEvent) (es : List RawEvent)
    → IsAscending es
    → IsAscending (insert_sorted by_ledger e es)
unfolding insert_sorted
insert_sorted-IsAscending e [] h = (tt, tt)
insert_sorted-IsAscending e (f ∷ fs) (h, hs) = elim (Bool-cases (leb e.ledger f.ledger)) [
  | inl low ↦ rw low ((ground arith, All-weaken e.ledger f.ledger fs (ground arith) h), (h, hs))
  | inr high ↦ rw high (
    All-insert_sorted (λ g. f.ledger ≤ g.ledger) by_ledger e fs (ground arith) h,
    insert_sorted-IsAscending e fs hs,
  )
]

sort_events-IsAscending : (es : List RawEvent) → IsAscending (sort_events by_ledger es)
unfolding sort_events
sort_events-IsAscending [] = tt
sort_events-IsAscending (e ∷ es) =
    insert_sorted-IsAscending e (sort_events by_ledger es) (sort_events-IsAscending es)

module _ (start_ledger end_ledger : ℕ) where
  keep_in_range-All :
      (es : List RawEvent)
      → All (IsInRange start_ledger end_ledger) (keep_in_range start_ledger end_ledger es)
  unfolding keep_in_range
  keep_in_range-All [] = tt
  keep_in_range-All (e ∷ es) = elim (Bool-cases (in_range start_ledger end_ledger e)) [
    | inl inside ↦ rw inside ((ground arith, ground arith), keep_in_range-All es)
    | inr outside ↦ rw outside (keep_in_range-All es)
  ]

  -- What a result that is read has.
  abbrev pub Read : (List RawEvent → Type 0) → Result (List RawEvent) → Type 0
  Read P (ok es) = P es
  Read P (err e) = Unit {0}

  append-Read :
      (es : List RawEvent) (r : Result (List RawEvent))
      → All (IsInRange start_ledger end_ledger) es
      → Read (All (IsInRange start_ledger end_ledger)) r
      → Read
          (All (IsInRange start_ledger end_ledger))
          (elim r [ ok rest ↦ ok (es ++ rest) | err e ↦ err e ])
  append-Read es (ok rest) h k = All-append (IsInRange start_ledger end_ledger) es rest h k
  append-Read es (err e) h k = tt

  fetch_pages-Read :
      (rpc : Rpc) (pages : ℕ) (cursor : Option ℕ)
      → Read
          (All (IsInRange start_ledger end_ledger))
          (fetch_pages rpc start_ledger end_ledger pages cursor)
  unfolding fetch_pages
  fetch_pages-Read rpc zero cursor = tt
  fetch_pages-Read rpc (suc n) cursor =
      elim (Option-cases (rpc.get_events (request_of start_ledger end_ledger cursor))) [
        | inl failed ↦ rw (fetch_pages, failed) tt
        | inr (page, got) ↦ elim (Option-cases (cursor_after start_ledger end_ledger cursor page)) [
          | inl ended ↦ rw (fetch_pages, got, ended) (keep_in_range-All page.events)
          | inr (next, on) ↦
              rw (fetch_pages, got, on)
                (append-Read (keep_in_range start_ledger end_ledger page.events) _
                  (keep_in_range-All page.events) (fetch_pages-Read rpc n (some next)))
        ]
      ]

  sort-Read :
      (r : Result (List RawEvent))
      → Read (All (IsInRange start_ledger end_ledger)) r
      → Read
          (λ es. All (IsInRange start_ledger end_ledger) es × IsAscending es)
          (elim r [ ok es ↦ ok (sort_events by_ledger es) | err e ↦ err e ])
  sort-Read (ok es) h = (
    All-sort_events (IsInRange start_ledger end_ledger) by_ledger es h,
    sort_events-IsAscending es,
  )
  sort-Read (err e) h = tt

  pub fetch_events_in_range-Read :
      (rpc : Rpc) (pages : ℕ)
      → Read
          (λ es. All (IsInRange start_ledger end_ledger) es × IsAscending es)
          (fetch_events_in_range rpc pages start_ledger end_ledger)
  unfolding fetch_events_in_range
  fetch_events_in_range-Read rpc pages =
      sort-Read (fetch_pages rpc start_ledger end_ledger pages none)
        (fetch_pages-Read rpc pages none)

  Read-elim :
      (P : List RawEvent → Type 0) (r : Result (List RawEvent)) (es : List RawEvent)
      → r ≡ ok es
      → Read P r
      → P es
  Read-elim P r es e h = subst (Read P) e h

  -- Whatever pages the RPC answers: the events that `fetchEventsInRange` returns are those of ledgers of
  -- the range, in the order of their ledgers.
  pub fetch_events_in_range-IsInRange :
      (rpc : Rpc) (pages : ℕ) (es : List RawEvent)
      → fetch_events_in_range rpc pages start_ledger end_ledger ≡ ok es
      → All (IsInRange start_ledger end_ledger) es × IsAscending es
  fetch_events_in_range-IsInRange rpc pages es e =
      Read-elim (λ es. All (IsInRange start_ledger end_ledger) es × IsAscending es) _ es e
        (fetch_events_in_range-Read rpc pages)
