-- ===== src/Order/Main.antt =====
-- order/cmd/main.go: how the process of the order service starts, serves and ends. That
-- manager.Must does not panic is assumed.
pub mod Ends
use ms_ex.Prelude.{
  ℕ, zero, suc, ◌+◌, ◌-◌, ◌==◌, ltb, String, ◌≡◌, refl, Bool, true, false, Option, none, some, List,
  [], ◌∷◌, ◌++◌, ◌⊎◌, inl, inr, arith, str_eq, if◌then◌else◌, Option-cases,
}

-- What is called outside: os.Getenv, and whether pgxpool.New, grpc.NewClient and SetupServer report
-- no error.
pub record MainLib : Type 0 where
  pub getenv : String → String
  pub new_pool : String → Bool
  pub new_client : String → Bool
  pub setup_server : Bool

-- What main closes by a deferred call.
pub data Resource : Type 0 where
  pool inventory_conn payment_conn signal_context : Resource

-- getEnv
unfoldable pub get_env : MainLib → String → String → String
get_env m key fallback = let v = m.getenv key in if str_eq v "" then fallback else v

abbrev pub inventory_address : MainLib → String
inventory_address m = get_env m "INVENTORY_SERVICE_ADDRESS" "localhost:50051"

abbrev pub payment_address : MainLib → String
payment_address m = get_env m "PAYMENT_SERVICE_ADDRESS" "localhost:50052"

-- main up to ListenAndServe: what is to be closed, in the order in which that is done; `none` is
-- os.Exit(1), which closes nothing.
unfoldable pub start : MainLib → Option (List Resource)
unfolding get_env
start m =
    if m.new_pool (m.getenv "DB_URI")
    then if m.new_client (inventory_address m)
      then if m.new_client (payment_address m)
        then if m.setup_server
          then some (signal_context ∷ payment_conn ∷ inventory_conn ∷ pool ∷ [])
          else none
        else none
      else none
    else none

-- The process while it serves, with the requests at work, the connections of the pool that they
-- hold, whether a signal came, and whether Shutdown was called; while main waits in pool.Close, the
-- last of its deferred calls; or its end, with the exit code, the requests that were at work,
-- and what was closed.
pub data Process : Type 0 where
  running : ℕ → ℕ → Bool → Bool → Process
  closing : ℕ → ℕ → Process
  exited : ℕ → ℕ → List Resource → Process

-- A request comes or is answered; one takes a connection of the pool or returns it; a signal comes;
-- the goroutine sees it and calls Shutdown; ListenAndServe returns ErrServerClosed, which it does as
-- soon as Shutdown is called, and main goes on to pool.Close; ListenAndServe returns another error;
-- pool.Close returns.
pub data Event : Type 0 where
  request_comes request_done acquire release signal shutdown_called : Event
  server_closed serving_failed pool_closed : Event

-- What one event makes of the process; an event that cannot be changes nothing. A request holds at
-- most one connection, and returns it before it is answered. A pool that is being closed gives out
-- no connection, and pool.Close waits for those that are held.
unfoldable pub next : List Resource → Event → Process → Process
next deferred request_comes (running n held s c) =
    if c then running n held s c else running (n + 1) held s c
next deferred request_done (running n held s c) =
    if ltb held n then running (n - 1) held s c else running n held s c
next deferred acquire (running n held s c) =
    if ltb held n then running n (held + 1) s c else running n held s c
next deferred release (running n held s c) = running n (held - 1) s c
next deferred signal (running n held s c) = running n held true c
next deferred shutdown_called (running n held s c) =
    if s then running n held s true else running n held s c
next deferred server_closed (running n held s c) = if c then closing n held else running n held s c
next deferred serving_failed (running n held s c) = if c then running n held s c else exited 1 n []
next deferred pool_closed (running n held s c) = running n held s c
next deferred request_done (closing n held) =
    if ltb held n then closing (n - 1) held else closing n held
next deferred release (closing n held) = closing n (held - 1)
next deferred pool_closed (closing n held) =
    if held == 0 then exited 0 n deferred else closing n held
next deferred e (closing n held) = closing n held
next deferred e (exited code n closed) = exited code n closed

unfoldable pub run : List Resource → List Event → Process → Process
unfolding next
run deferred [] p = p
run deferred (e ∷ events) p = run deferred events (next deferred e p)

-- main
unfoldable pub main : MainLib → List Event → Process
unfolding start run
main m events = elim (start m) [
  | none ↦ exited 1 0 []
  | some deferred ↦ run deferred events (running 0 0 false false)
]
