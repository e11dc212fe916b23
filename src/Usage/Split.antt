-- ===== src/Usage/Split.antt =====
-- Every number of a report splits into what a friend did and what an app did.
use text.Mathlib.Text.{◌==◌ as str_eq}
use infercat.Common.{
  ℕ, zero, suc, ◌+◌, ◌≤◌, ◌≡◌, refl, inl, inr, Bool, true, false, Option, none, some, List, [], ◌∷◌,
  ◌++◌, All, length, length-append, Bool-cases, arith,
}
use infercat.Usage.Stats.{
  Event, Stats, empty_stats, add, add_row, model_call, resource_meters, accounting_time,
}
use infercat.Usage.Report.{
  Filter, Group, empty_group, add_via, add_group, Part, add_part, Report, change, add_day, matches,
  add_pass, no_meters, add_event, Line, over_long, unparsed, blank, event, add_line, add_lines,
  days, empty_report, aggregate,
}
use infercat.Usage.Sums.{All-upsert}

-- What holds of every `Stats` of a group, of a part and of a report.
abbrev InGroup : (Stats → Type 0) → Group → Type 0
InGroup P g = P g.total × All (λ e. P e.1) g.by_via

abbrev InPart : (Stats → Type 0) → Part → Type 0
InPart P p = InGroup P p.whole × All (λ e. InGroup P e.1) p.by_key

abbrev pub Everywhere : (Stats → Type 0) → Report → Type 0
Everywhere P r = InPart P r.all × All (InPart P) r.daily

module _ (P : Stats → Type 0) (starts : P empty_stats)
    (adds : (meters : Bool) (e : Event) (s : Stats) → P s → P (add meters e s)) where
  add_group-InGroup :
      (meters : Bool) (e : Event) (g : Group) → InGroup P g → InGroup P (add_group meters e g)
  unfolding add_group add_via
  add_group-InGroup meters e g (t, v) = (
    adds meters e g.total t,
    All-upsert P empty_stats (add meters e) _ g.by_via starts (adds meters e) v,
  )

  add_part-InPart :
      (meters : Bool) (e : Event) (p : Part) → InPart P p → InPart P (add_part meters e p)
  unfolding add_part
  add_part-InPart meters e p (w, k) = (
    add_group-InGroup meters e p.whole w,
    All-upsert (InGroup P) empty_group (add_group meters e) e.key_id p.by_key (starts, tt)
        (add_group-InGroup meters e) k,
  )

  change-InPart :
      (meters : Bool) (e : Event) (i : ℕ) (ps : List Part)
      → All (InPart P) ps
      → All (InPart P) (change (add_part meters e) i ps)
  unfolding change
  change-InPart meters e i [] h = tt
  change-InPart meters e zero (p ∷ ps) h = (add_part-InPart meters e p h.0, h.1)
  change-InPart meters e (suc i) (p ∷ ps) h = (h.0, change-InPart meters e i ps h.1)

  add_day-InPart :
      (meters : Bool) (e : Event) (o : Option ℕ) (ps : List Part)
      → All (InPart P) ps
      → All (InPart P) (add_day (add_part meters e) o ps)
  unfolding add_day
  add_day-InPart meters e none ps h = h
  add_day-InPart meters e (some i) ps h = change-InPart meters e i ps h

  add_pass-Everywhere :
      (f : Filter) (meters : Bool) (e : Event) (at : ℕ) (r : Report)
      → Everywhere P r
      → Everywhere P (add_pass f meters e at r)
  unfolding add_pass
  add_pass-Everywhere f meters e at r h = elim (Bool-cases (matches f e at)) [
    | inl b ↦ rw b (add_part-InPart meters e r.all h.0, add_day-InPart meters e _ r.daily h.1)
    | inr b ↦ rw b h
  ]

  add_event-Everywhere :
      (f : Filter) (e : Event) (r : Report) → Everywhere P r → Everywhere P (add_event f e r)
  unfolding add_event
  add_event-Everywhere f e r h =
      let row = add_pass-Everywhere f false e e.ts r h in
      elim (Bool-cases (no_meters (resource_meters e))) [
        | inl b ↦ rw (b, add_event) row
        | inr b ↦
            rw (b, add_event)
              (add_pass-Everywhere f true e (accounting_time e) (add_pass f false e e.ts r) row)
      ]

  add_lines-Everywhere :
      (f : Filter) (ls : List Line) (r : Report) → Everywhere P r → Everywhere P (add_lines f ls r)
  unfolding add_lines add_line
  add_lines-Everywhere f [] r h = h
  add_lines-Everywhere f (over_long ∷ ls) r h = add_lines-Everywhere f ls _ h
  add_lines-Everywhere f (unparsed ∷ ls) r h = add_lines-Everywhere f ls _ h
  add_lines-Everywhere f (blank ∷ ls) r h = add_lines-Everywhere f ls r h
  add_lines-Everywhere f (event e ∷ ls) r h =
      add_lines-Everywhere f ls _ (add_event-Everywhere f e r h)

  days-InPart : (n : ℕ) → All (InPart P) (days n)
  days-InPart zero = tt
  days-InPart (suc n) = (((starts, tt), tt), days-InPart n)

  aggregate-Everywhere : (f : Filter) (ls : List Line) → Everywhere P (aggregate f ls)
  unfolding aggregate
  aggregate-Everywhere f ls =
      add_lines-Everywhere f ls (empty_report f) (((starts, tt), tt), days-InPart f.days)

-- Every request is a model call or a poll; and only model calls are timed, errors apart.
abbrev pub IsSplit : Stats → Type 0
IsSplit s =
    (s.requests ≡ s.model_calls + s.app_polls)
    × (s.errors ≤ s.requests)
    × (length s.ttfts ≤ s.model_calls)
    × (length s.totals ≤ s.model_calls)

length-snoc : (xs : List ℕ) (n : ℕ) → length (xs ++ n ∷ []) ≡ suc (length xs)
length-snoc xs n = omega (arith, length-append xs (n ∷ []))

add_row-IsSplit : (call : Bool) (e : Event) (s : Stats) → IsSplit s → IsSplit (add_row call e s)
unfolding add_row
add_row-IsSplit call e s h = (
  ground arith,
  ground arith,
  ground (arith, length-snoc s.ttfts e.ttft_ms),
  ground (arith, length-snoc s.totals e.total_ms),
)

add-IsSplit : (meters : Bool) (e : Event) (s : Stats) → IsSplit s → IsSplit (add meters e s)
unfolding add
add-IsSplit true e s h = h
add-IsSplit false e s h = elim (Bool-cases (str_eq e.kind "search")) [
  | inl b ↦ rw (b, add) h
  | inr b ↦ rw (b, add) (add_row-IsSplit (model_call e) e s h)
]

-- In every part of a report, in total, by key, by day and by path: the requests are the model calls
-- and the polls together, the errors are no more than the requests, and each of the two lists of
-- samples that the percentiles are taken of has no more entries than there are model calls.
pub aggregate-IsSplit : (f : Filter) (ls : List Line) → Everywhere IsSplit (aggregate f ls)
aggregate-IsSplit f ls =
    aggregate-Everywhere IsSplit (refl, omega arith, omega arith, omega arith) add-IsSplit f ls
