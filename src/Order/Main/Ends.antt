-- ===== src/Order/Main/Ends.antt =====
-- How the process of order/cmd/main.go ends.
use ms_ex.Prelude.{
  ℕ, zero, suc, ◌-◌, ◌≤◌, ◌==◌, ◌≡◌, refl, ◌∙◌, ap, Bool, true, false, some, List, [], ◌∷◌, ◌++◌,
  ◌⊎◌, inl, inr, arith, Option-cases, if◌then◌else◌,
}
use ms_ex.Order.Main.{
  MainLib, Resource, pool, inventory_conn, payment_conn, signal_context, start, Process, running,
  closing, exited, Event, release, signal, shutdown_called, server_closed, pool_closed, next, run,
  main,
}

-- A signal is among the events.
pub data Signalled : List Event → Type 0 where
  here : {es : List Event} → Signalled (signal ∷ es)
  there : {e : Event} {es : List Event} → Signalled es → Signalled (e ∷ es)

-- The process has ended as it should, or at an error.
abbrev Ended : List Resource → Bool → List Event → Process → Type 0
Ended deferred s events (running n held s' c) = Unit
Ended deferred s events (closing n held) = (s ≡ true) ⊎ Signalled events
Ended deferred s events (exited code n closed) =
    ((code ≡ 0) × (closed ≡ deferred) × ((s ≡ true) ⊎ Signalled events))
    ⊎ ((code ≡ 1) × (closed ≡ []))

-- All that main opens, in the order in which it is closed.
abbrev pub opened : List Resource
opened = signal_context ∷ payment_conn ∷ inventory_conn ∷ pool ∷ []

start-opened :
    (m : MainLib) (deferred : List Resource) → start m ≡ some deferred → deferred ≡ opened
unfolding start
start-opened m deferred h = ground (arith, h)

run-append :
    (deferred : List Resource) (events more : List Event) (p : Process)
    → run deferred (events ++ more) p ≡ run deferred more (run deferred events p)
unfolding run
run-append deferred [] more p = refl
run-append deferred (e ∷ events) more p = run-append deferred events more (next deferred e p)

-- That many connections are returned.
abbrev pub releases : ℕ → List Event
releases zero = []
releases (suc k) = release ∷ releases k

run-releases :
    (deferred : List Resource) (n k held : ℕ)
    → k ≤ held
    → run deferred (releases k ++ pool_closed ∷ []) (closing n held)
      ≡ (if k == held then exited 0 n deferred else closing n (held - k))
unfolding run next
run-releases deferred n zero held h = ground arith
run-releases deferred n (suc k) zero h = absurd (omega (arith, h))
run-releases deferred n (suc k) (suc held) h =
    ground (arith, run-releases deferred n k held (omega (arith, h)))

-- Whatever has happened so far, if the process serves, n requests are at work and some connections
-- of the pool are held: after a signal, the call of Shutdown, the return of ListenAndServe and the
-- return of k of these connections, pool.Close returns only if these are all of them; main then
-- ends with exit code 0 and all closed while the n requests are still at work, and otherwise it
-- still waits.
pub main_cut_off :
    (m : MainLib) (events : List Event) (n held k : ℕ) (s c : Bool)
    → main m events ≡ running n held s c
    → k ≤ held
    → main m
        (events ++ (signal ∷ shutdown_called ∷ server_closed ∷ (releases k ++ pool_closed ∷ [])))
      ≡ (if k == held then exited 0 n opened else closing n (held - k))
unfolding main run next
main_cut_off m events n held k s c h at_most = elim (Option-cases (start m)) [
  | inl failed ↦ cc (rw (main, failed) at h)
  | inr (deferred, started) ↦
      rw (main, started)
        (run-append deferred events _ (running 0 0 false false)
          ∙ rw (rw (main, started) at h) (
              run-releases deferred n k held at_most
              ∙ ap (λ d. if k == held then exited 0 n d else closing n (held - k))
                  (start-opened m deferred started)))
]
