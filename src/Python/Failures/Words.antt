-- ===== src/Python/Failures/Words.antt =====
-- Words in the texts of crates/taunicorn/src/lib.rs that print counts of bytes.
use taunicorn.Prelude.{
  ℕ, zero, suc, ◌+◌, ◌/◌, ◌%◌, ◌<◌, ◌≡◌, refl, ◌∙◌, Bool, true, false, ◌&&◌, ◌||◌, List, [], ◌∷◌,
  ◌++◌, ◌==◌, ==_iff, ltb, if◌then◌else◌, ◌≤◌, arith,
}
use taunicorn.Python.Exceptions.{connection_error}
use taunicorn.Python.Failures.{codes, decimal_on, decimal, by_text, starts_with, contains}

abbrev IsDigits : List ℕ → Type 0
IsDigits [] = Unit
IsDigits (d ∷ s) = (d < 58) × IsDigits s

append-IsDigits : (s : List ℕ) (d : ℕ) → d < 58 → IsDigits s → IsDigits (s ++ d ∷ [])
append-IsDigits [] d e h = (e, tt)
append-IsDigits (c ∷ s) d e (f, h) = (f, append-IsDigits s d e h)

decimal-IsDigits : (fuel n : ℕ) → IsDigits (decimal_on fuel n)
unfolding decimal_on
decimal-IsDigits zero n = tt
decimal-IsDigits (suc fuel) n = go (ltb n 10) (decimal-IsDigits fuel (n / 10))
  where
    last : 48 + n % 10 < 58
    last = omega arith

    go :
        (b : Bool)
        → IsDigits (decimal_on fuel (n / 10))
        → IsDigits
            (if b then (48 + n % 10) ∷ [] else (decimal_on fuel (n / 10) ++ (48 + n % 10) ∷ []))
    go true h = (last, tt)
    go false h = append-IsDigits (decimal_on fuel (n / 10)) (48 + n % 10) last h

-- A word that begins with a letter does not begin in digits.
over_digits :
    (c : ℕ) (w s t : List ℕ) → 58 ≤ c → IsDigits s → contains (c ∷ w) (s ++ t) ≡ contains (c ∷ w) t
over_digits c w [] t e h = refl
over_digits c w (d ∷ s) t e (f, h) = go (c == d) refl (over_digits c w s t e h)
  where
    go :
        (b : Bool)
        → (c == d) ≡ b
        → contains (c ∷ w) (s ++ t) ≡ contains (c ∷ w) t
        → (b && starts_with w (s ++ t)) || contains (c ∷ w) (s ++ t) ≡ contains (c ∷ w) t
    go true g r = absurd (let same : c ≡ d = (==_iff c d).0 g in omega arith)
    go false g r = r

-- It does not begin in the two numbers of the progress of a write.
pub over_progress :
    (c : ℕ) (w : List ℕ) (written size : ℕ) (t : List ℕ)
    → 58 ≤ c
    → ((s : List ℕ) → contains (c ∷ w) (codes " of " ++ s) ≡ contains (c ∷ w) s)
    → contains (c ∷ w) (decimal written ++ (codes " of " ++ (decimal size ++ t)))
      ≡ contains (c ∷ w) t
over_progress c w written size t e skips =
    over_digits c w (decimal written) (codes " of " ++ (decimal size ++ t)) e
      (decimal-IsDigits (suc written) written)
    ∙ skips (decimal size ++ t)
    ∙ over_digits c w (decimal size) t e (decimal-IsDigits (suc size) size)

pub closed_text :
    (t : List ℕ)
    → contains (codes "timeout") t ≡ false
    → contains (codes "paused") t ≡ false
    → contains (codes "closed") t ≡ true
    → by_text t ≡ connection_error
unfolding by_text
closed_text t a b c = rw (a, b, c)
