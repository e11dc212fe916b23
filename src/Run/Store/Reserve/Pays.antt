-- ===== src/Run/Store/Reserve/Pays.antt =====
-- internal/run/retained.go and store.go: a reservation pays for the commit that it was made for,
-- whatever the other runs of the key do within the budget in between.
use Prim.Native.String.{String}
use text.Mathlib.Text.{◌==◌ as str_eq}
use infercat.Common.{
  ℕ, ◌+◌, ◌-◌, ◌≤◌, ◌≡◌, refl, ap, sym, subst, ◌∙◌, pos, Bool, true, false, Option, none, some,
  List, arith, Option-cases, inl, inr, min,
}
use infercat.Run.{Raw, ImageOutput, Result, ok}
use infercat.Run.Store.{
  KeyData, Lease, Snapshot, Event, lookup, remove, budget, reserved_bytes, retained_budget,
  with_bytes,
}
use infercat.Run.Store.Commit.{draft, commit_for, written, within_budget, finished, ended}
use infercat.Run.{Result-cases}
use infercat.Run.Store.Reserve.{reserve_bytes, accepted}
use infercat.Run.Store.Reserve.Leases.{
  lookup-insert_lease, lookup-insert_other, lookup-remove_other, reserved_bytes-insert,
  reserved_bytes-remove, reserved_bytes-spend, reserved_bytes-finished, lookup-finished,
  lease_run-Given,
}

-- What a lease of enough bytes pays for.
lease-pays :
    (stored : ℕ) (d : KeyData) (rid : String) (l : Lease) (size : ℕ)
    → lookup rid d.leases ≡ some l
    → d.snapshot.encoded_bytes + reserved_bytes d.leases ≤ budget stored
    → size ≤ d.snapshot.encoded_bytes + l.bytes
    → accepted (retained_budget stored d (some rid) size) ≡ true
unfolding retained_budget
lease-pays stored d rid l size found room fits = ground (arith, found)

-- Whether a commit is made for a run.
abbrev pub names : String → Option String → Bool
names rid none = false
names rid (some other) = str_eq other rid

-- A budgeted commit leaves no more than the budget, and the leases of the runs that it is not for.
retained_budget-room :
    (stored : ℕ) (d : KeyData) (other : Option String) (size : ℕ) (m : List (String × Lease))
    → d.snapshot.encoded_bytes + reserved_bytes d.leases ≤ budget stored
    → retained_budget stored d other size ≡ ok m
    → size + reserved_bytes m ≤ budget stored
unfolding retained_budget
retained_budget-room stored d none size m room e = ground arith
retained_budget-room stored d (some o) size m room e = elim (Option-cases (lookup o d.leases)) [
  | inl y ↦ ground (arith, y)
  | inr (l, y) ↦
      let n = min l.bytes (size - d.snapshot.encoded_bytes) in
      let spent = reserved_bytes-spend o l n d.leases y (omega arith) in ground (arith, y, spent)
]

retained_budget-lookup :
    (stored : ℕ) (d : KeyData) (rid : String) (other : Option String) (size : ℕ)
    (m : List (String × Lease))
    → names rid other ≡ false
    → retained_budget stored d other size ≡ ok m
    → lookup rid m ≡ lookup rid d.leases
unfolding retained_budget
retained_budget-lookup stored d rid none size m n e = ground arith
retained_budget-lookup stored d rid (some o) size m n_other e =
    elim (Option-cases (lookup o d.leases)) [
      | inl y ↦ ground (arith, y)
      | inr (l, y) ↦
          let n = min l.bytes (size - d.snapshot.encoded_bytes) in
          let kept = lookup-insert_other o rid (with_bytes (l.bytes - n) l) d.leases n_other in
          ground (arith, y, kept)
    ]

module _ (image_json : Raw → Option ImageOutput) (stored : ℕ) (size : Snapshot → ℕ) where
  abbrev pub drafted : ℕ → Option Event → Snapshot → KeyData → Snapshot
  drafted now ev v d = (draft image_json stored size now ev d.snapshot v).snapshot

  commit_within :
      (now : ℕ) (other : Option String) (ev : Option Event) (v : Snapshot) (d : KeyData)
      (m : List (String × Lease))
      → d.broken ≡ false
      → retained_budget stored d other (size (drafted now ev v d)) ≡ ok m
      → let s = drafted now ev v d in
        let t = record s { encoded_bytes = size s } in
        commit_for image_json stored size now true other ev v d ≡ (
          record d { snapshot = t; leases = finished image_json stored size t.runs m },
          (draft image_json stored size now ev d.snapshot v).events,
          ok t,
        )
  unfolding commit_for within_budget written
  commit_within now other ev v d m here e = rw (e, here) refl

  -- What the other runs of a key do while a run has a lease: commits within the budget after which
  -- the run goes on, reservations, and leases that are given back.
  pub data Meanwhile (rid : String) : KeyData → KeyData → Type 0 where
    nothing : {d : KeyData} → Meanwhile rid d d
    commits :
        {d e : KeyData} (now : ℕ) (other : Option String) (ev : Option Event) (v : Snapshot)
        (m : List (String × Lease))
        → Meanwhile rid d e
        → names rid other ≡ false
        → retained_budget stored e other (size (drafted now ev v e)) ≡ ok m
        → ended (lookup rid (drafted now ev v e).runs) ≡ false
        → Meanwhile rid d (commit_for image_json stored size now true other ev v e).0
    reserves :
        {d e : KeyData} (other : String) (n : ℕ) (m : List (String × Lease))
        → Meanwhile rid d e
        → str_eq other rid ≡ false
        → reserve_bytes stored e other (pos n) ≡ ok m
        → Meanwhile rid d (record e { leases = m })
    returns :
        {d e : KeyData} (other : String)
        → Meanwhile rid d e
        → str_eq other rid ≡ false
        → Meanwhile rid d (record e { leases = remove other e.leases })

  -- The run's lease is whole, and the budget has room for all leases.
  record Secured (rid : String) (l : Lease) (d : KeyData) : Type 0 where
    whole : lookup rid d.leases ≡ some l
    room : d.snapshot.encoded_bytes + reserved_bytes d.leases ≤ budget stored
    opened : d.broken ≡ false

  commit-Secured :
      (rid : String) (l : Lease) (now : ℕ) (other : Option String) (ev : Option Event)
      (v : Snapshot) (e : KeyData) (m : List (String × Lease))
      → names rid other ≡ false
      → retained_budget stored e other (size (drafted now ev v e)) ≡ ok m
      → ended (lookup rid (drafted now ev v e).runs) ≡ false
      → Secured rid l e
      → Secured rid l (commit_for image_json stored size now true other ev v e).0
  commit-Secured rid l now other ev v e m n q goes k =
      let s = drafted now ev v e in
      let same = commit_within now other ev v e m k.opened q in
      subst (λ (x : KeyData × List Event × Result Snapshot). Secured rid l x.0) (sym same)
        (record {
          whole =
              lookup-finished image_json stored size s.runs rid m goes
              ∙ retained_budget-lookup stored e rid other (size s) m n q
              ∙ k.whole;
          room = omega (
            arith,
            reserved_bytes-finished image_json stored size s.runs m,
            retained_budget-room stored e other (size s) m k.room q,
          );
          opened = k.opened;
        })

  given-Secured :
      (d : KeyData) (rid : String) (n : ℕ) (m : List (String × Lease))
      → d.broken ≡ false
      → reserve_bytes stored d rid (pos n) ≡ ok m
      → Secured rid (record { late = false; bytes = n }) (record d { leases = m })
  unfolding reserve_bytes
  given-Secured d rid n m here e =
      let (none_yet, room, same) =
        lease_run-Given stored d rid n m (lookup rid d.snapshot.runs) e in
      let l : Lease = record { late = false; bytes = n } in
      record {
        whole = ap (lookup rid) same ∙ lookup-insert_lease rid l d.leases;
        room =
            omega
              (arith, ap reserved_bytes same, reserved_bytes-insert rid l d.leases none_yet, room);
        opened = here;
      }

  reserve-Secured :
      (rid other : String) (l : Lease) (n : ℕ) (e : KeyData) (m : List (String × Lease))
      → str_eq other rid ≡ false
      → reserve_bytes stored e other (pos n) ≡ ok m
      → Secured rid l e
      → Secured rid l (record e { leases = m })
  unfolding reserve_bytes
  reserve-Secured rid other l n e m apart q k =
      let (none_yet, fits, same) =
        lease_run-Given stored e other n m (lookup other e.snapshot.runs) q in
      record {
        whole =
            ap (lookup rid) same
            ∙ lookup-insert_other other rid (record { late = false; bytes = n }) e.leases apart
            ∙ k.whole;
        room = (given-Secured e other n m k.opened (unfold reserve_bytes in q)).room;
        opened = k.opened;
      }

  Meanwhile-Secured :
      (rid : String) (l : Lease) {d e : KeyData}
      → Meanwhile rid d e
      → Secured rid l d
      → Secured rid l e
  Meanwhile-Secured rid l nothing k = k
  Meanwhile-Secured rid l (commits {d} {e} now other ev v m t n q goes) k =
      commit-Secured rid l now other ev v e m n q goes (Meanwhile-Secured rid l t k)
  Meanwhile-Secured rid l (reserves {d} {e} other n m t apart q) k =
      reserve-Secured rid other l n e m apart q (Meanwhile-Secured rid l t k)
  Meanwhile-Secured rid l (returns {d} {e} other t apart) k =
      let j = Meanwhile-Secured rid l t k in
      record {
        whole = lookup-remove_other other rid e.leases apart ∙ j.whole;
        room = omega (arith, reserved_bytes-remove other e.leases, j.room);
        opened = j.opened;
      }

  accepts-some :
      (stored : ℕ) (d : KeyData) (rid : String) (n : ℕ)
      → accepted (retained_budget stored d (some rid) n) ≡ true
      → (m : List (String × Lease)) × (retained_budget stored d (some rid) n ≡ ok m)
  accepts-some s d rid n e = elim (Result-cases (retained_budget s d (some rid) n)) [
    | inl (m, q) ↦ (m, q)
    | inr (z, q) ↦ absurd (ground (arith, q, e))
  ]

  -- Once a run of an open key has reserved `n` bytes with `Admit`, then whatever the key's other
  -- runs do within the budget (commits after which the run goes on, reservations, leases that are
  -- given back), a commit of the run that can be written, and by which the key's file grows by at
  -- most `n` bytes, succeeds: nobody else has spent what was reserved.
  pub reserve-pays :
      (d e : KeyData) (rid : String) (n : ℕ) (m : List (String × Lease)) (now : ℕ)
      (ev : Option Event) (v : Snapshot)
      → d.broken ≡ false
      → reserve_bytes stored d rid (pos n) ≡ ok m
      → Meanwhile rid (record d { leases = m }) e
      → size (drafted now ev v e) ≤ e.snapshot.encoded_bytes + n
      → accepted (commit_for image_json stored size now true (some rid) ev v e).2 ≡ true
  reserve-pays d e rid n m now ev v here q t fits =
      let l : Lease = record { late = false; bytes = n } in
      let k = Meanwhile-Secured rid l t (given-Secured d rid n m here q) in
      let (p, y) =
        accepts-some stored e rid _
          (lease-pays stored e rid l (size (drafted now ev v e)) k.whole k.room fits) in
      ap (λ (x : KeyData × List Event × Result Snapshot). accepted x.2)
        (commit_within now (some rid) ev v e p k.opened y)
