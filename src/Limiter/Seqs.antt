-- ===== src/Limiter/Seqs.antt =====
-- Each admission writes its own seq, so a settlement takes back its own entry and no other.
use infercat.Common.{
  ℕ, suc, ◌+◌, ◌≤◌, ◌<◌, ◌≡◌, refl, inl, inr, ◌&&◌, List, [], ◌∷◌, ◌++◌, Bool-cases, arith, ◌==◌,
}
use infercat.Limiter.{LogEntry, remove_entry}

-- The seqs grow, and stand within bounds.
abbrev pub Seqs : ℕ → ℕ → List LogEntry → Type 0
Seqs lo hi [] = lo ≤ hi
Seqs lo hi (e ∷ es) = (lo ≤ e.seq) × Seqs (suc e.seq) hi es

pub Seqs-lower : (lo lo' hi : ℕ) (es : List LogEntry) → lo' ≤ lo → Seqs lo hi es → Seqs lo' hi es
Seqs-lower lo lo' hi [] h t = omega arith
Seqs-lower lo lo' hi (e ∷ es) h t = (omega arith, t.1)

pub Seqs-append :
    (lo s : ℕ) (es : List LogEntry) (e : LogEntry)
    → Seqs lo (suc s) es
    → e.seq ≡ s + 1
    → Seqs lo (suc e.seq) (es ++ e ∷ [])
Seqs-append lo s [] e t h = (omega arith, omega arith)
Seqs-append lo s (x ∷ es) e t h = (t.0, Seqs-append (suc x.seq) s es e t.1 h)

pub Seqs-remove :
    (lo hi s : ℕ) (es : List LogEntry) → Seqs lo hi es → Seqs lo hi (remove_entry s es)
unfolding remove_entry
Seqs-remove lo hi s [] t = t
Seqs-remove lo hi s (e ∷ es) t = elim (Bool-cases ((e.req == 1) && (e.seq == s))) [
  | inl h ↦ rw (h, remove_entry) (Seqs-lower (suc e.seq) lo hi es (omega arith) t.1)
  | inr h ↦ rw (h, remove_entry) (t.0, Seqs-remove (suc e.seq) hi s es t.1)
]

remove-above : (lo hi s : ℕ) (es : List LogEntry) → s < lo → Seqs lo hi es → remove_entry s es ≡ es
unfolding remove_entry
remove-above lo hi s [] h t = refl
remove-above lo hi s (e ∷ es) h t = ground (arith, remove-above (suc e.seq) hi s es)

Seqs-right : (lo hi : ℕ) (xs ys : List LogEntry) → Seqs lo hi (xs ++ ys) → Seqs lo hi ys
Seqs-right lo hi [] ys t = t
Seqs-right lo hi (x ∷ xs) ys t =
    Seqs-lower (suc x.seq) lo hi ys (omega arith) (Seqs-right (suc x.seq) hi xs ys t.1)

-- A seq stands in one place only, so removing it in both halves removes it once.
pub remove-append :
    (lo hi s : ℕ) (xs ys : List LogEntry)
    → Seqs lo hi (xs ++ ys)
    → remove_entry s (xs ++ ys) ≡ remove_entry s xs ++ remove_entry s ys
unfolding remove_entry
remove-append lo hi s [] ys t = refl
remove-append lo hi s (x ∷ xs) ys t = ground (
  arith,
  remove-append (suc x.seq) hi s xs ys t.1,
  remove-above (suc x.seq) hi s ys,
  Seqs-right (suc x.seq) hi xs ys t.1,
)
