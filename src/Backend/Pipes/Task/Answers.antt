-- ===== src/Backend/Pipes/Task/Answers.antt =====
-- What is true of a pipe's request in the phases of a round, whatever the other tasks do meanwhile.
use esp_usbip_bridge.Base.{
  ℕ, suc, if◌then◌else◌, ◌<◌, ◌≡◌, Bool, true, false, ◌&&◌, ◌||◌, ◌⊎◌, arith,
}
use esp_usbip_bridge.Backend.Pipes.{Pipe}
use esp_usbip_bridge.Backend.Pipes.Pool.{fill_request}
use esp_usbip_bridge.Backend.Pipes.Callers.{start_idle, give_answered}
use esp_usbip_bridge.Backend.Pipes.Task.{pipe_transfer_done_cb, mark_aborted}
use esp_usbip_bridge.Backend.Pipes.Task.Places.{IsStable}

-- A caller waits for the answer to its request.
unfoldable pub is_busy : Pipe → Bool
is_busy p = p.submitted || (p.assigned && p.active)

-- `c`: a transfer was in flight whose cancel flag was set.
abbrev pub IsKept : Bool → Pipe → Type 0
IsKept c p = (c ≡ false) ⊎ ((p.submitted ≡ true) × (p.cancel ≡ true))

-- `b`: a caller waited for an answer, and `g` were given up to then. Before the first phase, and behind it:
-- the transfer is in flight, or one more answer was given.
abbrev pub IsWaiting : Bool → ℕ → Pipe → Type 0
IsWaiting b g p =
    (b ≡ false)
    ⊎ ((p.answers ≡ g) × ((p.submitted ≡ true) ⊎ ((p.assigned ≡ true) × (p.active ≡ true))))

abbrev pub IsServed : Bool → ℕ → Pipe → Type 0
IsServed b g p = (b ≡ false) ⊎ (p.answers ≡ (if p.submitted then g else suc g))

-- Behind the first phase, at the tests of the second, and behind it.
abbrev pub IsSubmitted : Bool → Bool → ℕ → Pipe → Type 0
IsSubmitted b c g p = IsKept c p × IsServed b g p

abbrev pub IsMarked : Bool → Bool → ℕ → ℕ → Pipe → Type 0
IsMarked b c g now p =
    (p.submitted ≡ true)
    × ((p.aborted ≡ true) ⊎ ((p.aborted ≡ false) × (now < p.deadline) × (c ≡ false)))
    × ((b ≡ false) ⊎ (p.answers ≡ g))

abbrev pub IsSettled : Bool → Bool → ℕ → ℕ → Pipe → Type 0
IsSettled b c g now p =
    (((p.submitted ≡ true) × (now < p.deadline) × (c ≡ false)) ⊎ (p.submitted ≡ false))
    × IsServed b g p

pub IsKept-IsStable : (c : Bool) → IsStable (IsKept c)
unfolding pipe_transfer_done_cb start_idle fill_request give_answered
IsKept-IsStable c = record {
  reported = λ r p h. h;
  taken_then = λ p free h. h;
  started_then = λ r p h. ground (arith, h);
  given_then = λ p h. ground (arith, h);
  cancelled_then = λ p h. ground (arith, h);
}

pub IsWaiting-IsStable : (b : Bool) (g : ℕ) → IsStable (IsWaiting b g)
unfolding pipe_transfer_done_cb start_idle fill_request give_answered
IsWaiting-IsStable b g = record {
  reported = λ r p h. h;
  taken_then = λ p free h. ground (arith, free, h);
  started_then = λ r p h. ground (arith, h);
  given_then = λ p h. ground (arith, h);
  cancelled_then = λ p h. ground (arith, h);
}

pub IsSubmitted-IsStable : (b c : Bool) (g : ℕ) → IsStable (IsSubmitted b c g)
unfolding pipe_transfer_done_cb start_idle fill_request give_answered
IsSubmitted-IsStable b c g = record {
  reported = λ r p h. h;
  taken_then = λ p free h. ground (arith, free, h);
  started_then = λ r p h. ground (arith, h);
  given_then = λ p h. ground (arith, h);
  cancelled_then = λ p h. ground (arith, h);
}

pub IsMarked-IsStable : (b c : Bool) (g now : ℕ) → IsStable (IsMarked b c g now)
unfolding pipe_transfer_done_cb start_idle fill_request give_answered
IsMarked-IsStable b c g now = record {
  reported = λ r p h. h;
  taken_then = λ p free h. ground (arith, free, h);
  started_then = λ r p h. ground (arith, h);
  given_then = λ p h. ground (arith, h);
  cancelled_then = λ p h. ground (arith, h);
}

pub IsSettled-IsStable : (b c : Bool) (g now : ℕ) → IsStable (IsSettled b c g now)
unfolding pipe_transfer_done_cb start_idle fill_request give_answered
IsSettled-IsStable b c g now = record {
  reported = λ r p h. h;
  taken_then = λ p free h. ground (arith, free, h);
  started_then = λ r p h. ground (arith, h);
  given_then = λ p h. ground (arith, h);
  cancelled_then = λ p h. ground (arith, h);
}

pub mark_aborted-IsMarked :
    (b c : Bool) (g now : ℕ) (p : Pipe)
    → p.submitted ≡ true
    → IsSubmitted b c g p
    → IsMarked b c g now (mark_aborted now p)
unfolding mark_aborted
mark_aborted-IsMarked b c g now p s (kept, served) = ground (arith, s, kept, served)
