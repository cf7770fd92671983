-- ===== src/Engine/Spacing.antt =====
-- Alerts spaced by a gap: what appending one alert asks.
use sentinel_home.Prelude.{ℕ, ◌+◌, ◌≤◌, ◌≡◌, List, [], ◌∷◌, ◌++◌, arith, All}
use sentinel_home.Models.{Alert}

-- each time is at least `gap` after every time before it
abbrev pub Spaced : ℕ → List Alert → Type 0
Spaced gap [] = Unit
Spaced gap (a ∷ rest) = All (λ b. a.ts + gap ≤ b.ts) rest × Spaced gap rest

abbrev pub NotAfter : ℕ → List Alert → Type 0
NotAfter t = All (λ (a : Alert). a.ts ≤ t)

All-append_one :
    (P : Alert → Type 0) (alerts : List Alert) (a : Alert)
    → All P alerts
    → P a
    → All P (alerts ++ a ∷ [])
All-append_one P [] a h p = (p, tt)
All-append_one P (b ∷ rest) a h p = (h.0, All-append_one P rest a h.1 p)

pub Spaced-append :
    (gap now last : ℕ) (alerts : List Alert) (a : Alert)
    → NotAfter last alerts
    → last + gap ≤ now
    → a.ts ≡ now
    → Spaced gap alerts
    → Spaced gap (alerts ++ a ∷ [])
Spaced-append gap now last [] a old le e s = (tt, tt)
Spaced-append gap now last (b ∷ rest) a old le e s = (
  All-append_one (λ (c : Alert). b.ts + gap ≤ c.ts) rest a s.0 (omega arith),
  Spaced-append gap now last rest a old.1 le e s.1,
)

pub NotAfter-append :
    (now last : ℕ) (alerts : List Alert) (a : Alert)
    → NotAfter last alerts
    → last ≤ now
    → a.ts ≡ now
    → NotAfter now (alerts ++ a ∷ [])
NotAfter-append now last [] a old le e = (omega arith, tt)
NotAfter-append now last (b ∷ rest) a old le e =
    (omega arith, NotAfter-append now last rest a old.1 le e)

pub NotAfter-mono : (t u : ℕ) (alerts : List Alert) → t ≤ u → NotAfter t alerts → NotAfter u alerts
NotAfter-mono t u [] le h = tt
NotAfter-mono t u (a ∷ rest) le h = (omega arith, NotAfter-mono t u rest le h.1)
