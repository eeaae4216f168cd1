-- ===== src/Dhcp/Report/Worker.antt =====
-- pkg/subnet/dhcpserver/UpdateSubnet.go: every signal is served by the next tick, and no tick serves
-- more than one update.
use topohub.Common.{ℕ, suc, ◌+◌, ◌≤◌, ◌≡◌, refl, Bool, true, false, List, [], ◌∷◌, ◌++◌, arith, all}
use topohub.Dhcp.Report.{
  WorkerEvent, stop, signal, tick, WorkerState, worker_step, status_update_worker,
}

abbrev pub is_signal : WorkerEvent → Bool
is_signal signal = true
is_signal _ = false

abbrev pub ticks : List WorkerEvent → ℕ
ticks [] = 0
ticks (tick ∷ es) = suc (ticks es)
ticks (stop ∷ es) = ticks es
ticks (signal ∷ es) = ticks es

signals_wait :
    (es : List WorkerEvent) (s : WorkerState)
    → all is_signal es ≡ true
    → s.is_running ≡ true
    → s.pending_update ≡ true
    → status_update_worker (es ++ tick ∷ []) s
      ≡ record s { pending_update = false; updates = s.updates + 1 }
unfolding status_update_worker
signals_wait [] s a r p = ground arith
signals_wait (signal ∷ es) s a r p =
    ground (arith, signals_wait es (record s { pending_update = true }) a r refl)
signals_wait (stop ∷ es) s a r p = cc
signals_wait (tick ∷ es) s a r p = cc

-- A running worker that is signalled makes exactly one update at the next tick, however often it is
-- signalled until then, whatever was pending before; then none is pending.
pub status_update_worker-signal :
    (es : List WorkerEvent) (s : WorkerState)
    → all is_signal es ≡ true
    → s.is_running ≡ true
    → status_update_worker (signal ∷ (es ++ tick ∷ [])) s
      ≡ record s { pending_update = false; updates = s.updates + 1 }
unfolding status_update_worker
status_update_worker-signal es s a r =
    ground (arith, signals_wait es (record s { pending_update = true }) a r refl)

-- The worker makes at most one update for each tick that it receives.
pub updates_le_ticks :
    (es : List WorkerEvent) (s : WorkerState)
    → (status_update_worker es s).updates ≤ s.updates + ticks es
unfolding status_update_worker
updates_le_ticks [] s = omega arith
updates_le_ticks (stop ∷ es) s = ground (arith, updates_le_ticks es (worker_step stop s))
updates_le_ticks (signal ∷ es) s = ground (arith, updates_le_ticks es (worker_step signal s))
updates_le_ticks (tick ∷ es) s = ground (arith, updates_le_ticks es (worker_step tick s))
