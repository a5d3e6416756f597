-- ===== src/Service/Join.antt =====
-- Joining, and what the destructors rely on.
use srf.Base.{◌≡◌, ◌≢◌, ◌⊎◌, ◌++◌, [], ◌∷◌, Outcome, ok, throws, Exception, arith}
use srf.Service.{
  Service, awaiting, stopping, completed, Hook, service_stop, service_await_join,
  call_in_destructor, destroy,
}

module _ (hook : Hook → Outcome (Unit {0})) where
  -- A join whose hook returns leaves the service completed, from any state; the hook runs unless
  -- the service was completed before.
  pub service_await_join-completes :
      (s : Service)
      → hook Hook.await_join ≡ ok tt
      → ((service_await_join hook s).0 ≡ ok tt)
        × ((service_await_join hook s).1.state ≡ completed)
        × (((s.state ≡ completed) × ((service_await_join hook s).1 ≡ s))
            ⊎ ((s.state ≢ completed)
                × ((service_await_join hook s).1.calls ≡ s.calls ++ (Hook.await_join ∷ []))))
  unfolding service_await_join
  service_await_join-completes s h = grind arith

  -- If the hooks for kill and join return, `call_in_destructor` readies every service for its
  -- destructor, whose check then passes; a service that was never started is left alone.
  pub destroy-call_in_destructor :
      (s : Service)
      → hook Hook.kill ≡ ok tt
      → hook Hook.await_join ≡ ok tt
      → let (o, t) = call_in_destructor hook s in
        (o ≡ ok tt) × (destroy t ≡ (ok tt, t)) × ((t.state ≡ completed) ⊎ (t ≡ s))
  unfolding call_in_destructor destroy
  destroy-call_in_destructor s k j = ground arith

  -- A join takes a stopped service back to `awaiting`. If its hook throws, the service stays there,
  -- so the next stop runs do_service_stop a second time.
  pub stop_again_after_failed_join :
      (s : Service) (e : Exception)
      → s.state ≡ stopping
      → hook Hook.await_join ≡ throws e
      → let joined = (service_await_join hook s).1 in
        ((service_await_join hook s).0 ≡ throws e)
        × (joined.state ≡ awaiting)
        × ((service_stop hook joined).1.calls
            ≡ s.calls ++ (Hook.await_join ∷ []) ++ (Hook.stop ∷ []))
  unfolding service_await_join service_stop
  stop_again_after_failed_join s e h k = ground arith
