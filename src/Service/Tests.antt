-- ===== src/Service/Tests.antt =====
-- Services whose hooks return, and one whose join throws.
use srf.Base.{◌≡◌, refl, Bool, List, [], ◌∷◌, Outcome, ok, throws, Exception, All}
use srf.Service.{
  Service, new_service, running, stopping, Hook, Call, starts, stops, kills, service_stop,
  service_await_join, perform_all,
}
use srf.Service.Advance.{hooks_in_order, Controls, ran}
use srf.Service.Join.{stop_again_after_failed_join}

abbrev returns : Hook → Outcome (Unit {0})
returns h = ok tt

abbrev join_throws : Hook → Outcome (Unit {0})
join_throws Hook.await_join = throws Exception.name_collision
join_throws _ = ok tt

abbrev started : Service
started = record { state = running; calls = Hook.start ∷ [] }

abbrev stopped : Service
stopped = record { state = stopping; calls = Hook.start ∷ Hook.stop ∷ [] }

abbrev script : List Call
script = starts ∷ stops ∷ starts ∷ kills ∷ stops ∷ []

script_runs :
    (perform_all returns script new_service).calls ≡ Hook.start ∷ Hook.stop ∷ Hook.kill ∷ []
unfolding perform_all
script_runs = refl

script-Controls : All Controls script
script-Controls = (
  (λ e. cc e, λ e. cc e),
  (
    (λ e. cc e, λ e. cc e),
    ((λ e. cc e, λ e. cc e), ((λ e. cc e, λ e. cc e), ((λ e. cc e, λ e. cc e), tt))),
  ),
)

hooks_in_order_example :
    (a : Bool) × (b : Bool) × (c : Bool) × ((perform_all returns script new_service).calls
      ≡ ran a b c)
hooks_in_order_example = hooks_in_order returns script script-Controls

stop_again_after_failed_join_example :
    (service_stop join_throws (service_await_join join_throws stopped).1).1.calls
    ≡ Hook.start ∷ Hook.stop ∷ Hook.await_join ∷ Hook.stop ∷ []
stop_again_after_failed_join_example =
    (stop_again_after_failed_join join_throws stopped Exception.name_collision refl refl).2
