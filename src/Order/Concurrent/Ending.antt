-- ===== src/Order/Concurrent/Ending.antt =====
-- Whether a request comes to an end under overlapping requests.
use ms_ex.Prelude.{
  ℕ, ◌+◌, ◌-◌, ◌≤◌, ◌≡◌, refl, List, [], ◌∷◌, ◌==◌, if◌then◌else◌, Bool-cases, inl, inr, arith,
  ==_iff,
}
use ms_ex.Errors.{Result, ok, err}
use ms_ex.External.{Uuid, Time, Libs}
use ms_ex.Order.Data.{Order}
use ms_ex.Order.Service.{World, Service, paid_with, cancelled}
use ms_ex.Order.Concurrent.{
  Request, creating, storing, getting, paying, charging, cancelling, saving, finished, or_finish,
  advance, System, Turn, take_turn, run,
}

-- The calls that a request may still make.
abbrev pub rank : Request → ℕ
rank (creating input) = 2
rank (storing input total) = 1
rank (getting id) = 1
rank (paying id method) = 3
rank (charging method order) = 2
rank (cancelling id) = 2
rank (saving order) = 1
rank (finished r) = 0

rank-or_finish :
    {A : Type 0} (n : ℕ) (r : Result A) (next : A → Request)
    → ((a : A) → rank (next a) ≤ n)
    → rank (or_finish r next) ≤ n
rank-or_finish n (err e) next h = omega arith
rank-or_finish n (ok a) next h = h a

abbrev pub turns_of : ℕ → List Turn → ℕ
turns_of i [] = 0
turns_of i (t ∷ turns) = (if t.who == i then 1 else 0) + turns_of i turns

module _ {R : Type 0} (L : Libs) (svc : Service R) where
  rank-advance :
      (drawn : Uuid) (now : Time) (r : Request) (w : World R)
      → rank (advance L svc drawn now r w).0 ≤ rank r - 1
  unfolding advance
  rank-advance drawn now (creating input) w =
      rank-or_finish 1 _ (storing input) (λ total. omega arith)
  rank-advance drawn now (storing input total) w = omega arith
  rank-advance drawn now (getting id) w = omega arith
  rank-advance drawn now (paying id method) w =
      rank-or_finish 2 _ (charging method) (λ order. omega arith)
  rank-advance drawn now (charging method order) w =
      rank-or_finish 1 _ (λ (t : Uuid). saving (paid_with t method order)) (λ t. omega arith)
  rank-advance drawn now (cancelling id) w =
      rank-or_finish 1 _ (λ order. saving (cancelled order)) (λ order. omega arith)
  rank-advance drawn now (saving order) w = omega arith
  rank-advance drawn now (finished r) w = omega arith

  rank-take_turn :
      (t : Turn) (s : System R) (i : ℕ)
      → rank ((take_turn L svc t s).requests i)
        ≤ rank (s.requests i) - (if t.who == i then 1 else 0)
  unfolding take_turn
  rank-take_turn t s i = elim (Bool-cases (t.who == i)) [
    | inl own ↦
        rw (own, ← (==_iff t.who i).0 own) (rank-advance t.drawn t.now (s.requests t.who) s.world)
    | inr other ↦ rw other (omega arith)
  ]

  rank-run :
      (turns : List Turn) (s : System R) (i : ℕ)
      → rank ((run L svc turns s).requests i) ≤ rank (s.requests i) - turns_of i turns
  unfolding run
  rank-run [] s i = omega arith
  rank-run (t ∷ turns) s i =
      omega (arith, rank-run turns (take_turn L svc t s) i, rank-take_turn t s i)

  rank-finished : (r : Request) → rank r ≤ 0 → (o : Result Order) × (r ≡ finished o)
  rank-finished (finished o) h = (o, refl)
  rank-finished (creating input) h = absurd (omega (arith, h))
  rank-finished (storing input total) h = absurd (omega (arith, h))
  rank-finished (getting id) h = absurd (omega (arith, h))
  rank-finished (paying id method) h = absurd (omega (arith, h))
  rank-finished (charging method order) h = absurd (omega (arith, h))
  rank-finished (cancelling id) h = absurd (omega (arith, h))
  rank-finished (saving order) h = absurd (omega (arith, h))

  -- Whatever the other requests do and whatever the other services and the storage answer: a
  -- request that gets as many turns as it may still make calls, at most three, is finished with a
  -- result.
  pub run-finishes :
      (turns : List Turn) (s : System R) (i : ℕ)
      → rank (s.requests i) ≤ turns_of i turns
      → (r : Result Order) × ((run L svc turns s).requests i ≡ finished r)
  run-finishes turns s i h =
      rank-finished ((run L svc turns s).requests i) (omega (arith, rank-run turns s i, h))
