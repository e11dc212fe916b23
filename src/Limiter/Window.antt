-- ===== src/Limiter/Window.antt =====
-- The sliding minute: what the log says about the admissions of the last sixty seconds.
use infercat.Common.{
  ℕ, ◌+◌, ◌≤◌, ◌<◌, ◌≡◌, refl, sym, ap, List, [], ◌∷◌, ◌++◌, if◌then◌else◌, leb, not, ◌&&◌,
  Bool-cases, inl, inr, arith, ◌==◌, leb→gt,
}
use infercat.Limiter.{LogEntry, window, expired, drop_entries, requests, remove_entry}

-- How many entries a minute that ends at `n` counts.
abbrev pub live : ℕ → List LogEntry → ℕ
live n [] = 0
live n (e ∷ es) = let rest = live n es in if expired n e.t then rest else e.req + rest

-- How many entries stand in the sixty seconds up to `n`; later ones do not count.
abbrev pub in_window : ℕ → List LogEntry → ℕ
in_window n [] = 0
in_window n (e ∷ es) =
    let rest = in_window n es in if leb e.t n && not (expired n e.t) then e.req + rest else rest

-- The times do not fall, and stand within bounds.
abbrev pub Timed : ℕ → ℕ → List LogEntry → Type 0
Timed lo hi [] = lo ≤ hi
Timed lo hi (e ∷ es) = (lo ≤ e.t) × Timed e.t hi es

pub Timed-le : (lo hi : ℕ) (es : List LogEntry) → Timed lo hi es → lo ≤ hi
Timed-le lo hi [] h = h
Timed-le lo hi (e ∷ es) h = omega (arith, h.0, Timed-le e.t hi es h.1)

pub Timed-lower : (lo lo' hi : ℕ) (es : List LogEntry) → lo' ≤ lo → Timed lo hi es → Timed lo' hi es
Timed-lower lo lo' hi [] h t = omega arith
Timed-lower lo lo' hi (e ∷ es) h t = (omega arith, t.1)

pub Timed-raise : (lo hi hi' : ℕ) (es : List LogEntry) → hi ≤ hi' → Timed lo hi es → Timed lo hi' es
Timed-raise lo hi hi' [] h t = omega arith
Timed-raise lo hi hi' (e ∷ es) h t = (t.0, Timed-raise e.t hi hi' es h t.1)

pub Timed-append :
    (lo hi : ℕ) (es : List LogEntry) (e : LogEntry)
    → Timed lo hi es
    → hi ≤ e.t
    → Timed lo e.t (es ++ e ∷ [])
Timed-append lo hi [] e t h = (omega arith, omega arith)
Timed-append lo hi (x ∷ es) e t h = (t.0, Timed-append x.t hi es e t.1 h)

pub Timed-remove :
    (lo hi s : ℕ) (es : List LogEntry) → Timed lo hi es → Timed lo hi (remove_entry s es)
unfolding remove_entry
Timed-remove lo hi s [] t = t
Timed-remove lo hi s (e ∷ es) t = elim (Bool-cases ((e.req == 1) && (e.seq == s))) [
  | inl h ↦ rw (h, remove_entry) (Timed-lower e.t lo hi es t.0 t.1)
  | inr h ↦ rw (h, remove_entry) (t.0, Timed-remove e.t hi s es t.1)
]

pub Timed-drop :
    (lo hi now : ℕ) (es : List LogEntry) → Timed lo hi es → Timed lo hi (drop_entries now es)
unfolding drop_entries
Timed-drop lo hi now [] t = t
Timed-drop lo hi now (e ∷ es) t = elim (Bool-cases (expired now e.t)) [
  | inl h ↦
      rw (h, drop_entries)
        (Timed-lower e.t lo hi (drop_entries now es) t.0 (Timed-drop e.t hi now es t.1))
  | inr h ↦ rw (h, drop_entries) t
]

all_live :
    (lo hi n : ℕ) (es : List LogEntry) → n < lo + window → Timed lo hi es → live n es ≡ requests es
unfolding requests
all_live lo hi n [] h t = refl
all_live lo hi n (e ∷ es) h t = ground (arith, t.0, all_live e.t hi n es)

-- After a prune the requests in the log are those of the last minute.
pub requests-drop :
    (lo hi now : ℕ) (es : List LogEntry)
    → Timed lo hi es
    → requests (drop_entries now es) ≡ live now es
unfolding drop_entries requests
requests-drop lo hi now [] t = refl
requests-drop lo hi now (e ∷ es) t = elim (Bool-cases (expired now e.t)) [
  | inl h ↦ rw (h, drop_entries) (requests-drop e.t hi now es t.1)
  | inr h ↦
      rw (h, drop_entries) (ap (λ k. e.req + k) (sym (all_live e.t hi now es (leb→gt _ _ h) t.1)))
]

-- What a prune drops does not count at any later time either.
pub live-drop :
    (n now : ℕ) (es : List LogEntry) → now ≤ n → live n (drop_entries now es) ≡ live n es
unfolding drop_entries
live-drop n now [] h = refl
live-drop n now (e ∷ es) h = ground (arith, live-drop n now es h)

pub live-append : (n : ℕ) (xs ys : List LogEntry) → live n (xs ++ ys) ≡ live n xs + live n ys
live-append n [] ys = omega arith
live-append n (e ∷ xs) ys = ground (arith, live-append n xs ys)

pub in_window-append :
    (n : ℕ) (xs ys : List LogEntry) → in_window n (xs ++ ys) ≡ in_window n xs + in_window n ys
in_window-append n [] ys = omega arith
in_window-append n (e ∷ xs) ys = ground (arith, in_window-append n xs ys)

-- Past the last entry nothing is too late to count.
pub in_window-live :
    (lo hi n : ℕ) (es : List LogEntry) → Timed lo hi es → hi ≤ n → in_window n es ≡ live n es
in_window-live lo hi n [] t h = refl
in_window-live lo hi n (e ∷ es) t h =
    ground (arith, in_window-live e.t hi n es t.1 h, Timed-le e.t hi es t.1)

pub live_mono : (m n : ℕ) (es : List LogEntry) → m ≤ n → live n es ≤ live m es
live_mono m n [] h = omega arith
live_mono m n (e ∷ es) h = ground (arith, live_mono m n es h)

pub in_window-remove :
    (n s : ℕ) (es : List LogEntry) → in_window n (remove_entry s es) ≤ in_window n es
unfolding remove_entry
in_window-remove n s [] = omega arith
in_window-remove n s (e ∷ es) = ground (arith, in_window-remove n s es)

pub live-remove : (n s : ℕ) (es : List LogEntry) → live n (remove_entry s es) ≤ live n es
unfolding remove_entry
live-remove n s [] = omega arith
live-remove n s (e ∷ es) = ground (arith, live-remove n s es)
