-- ===== src/Examples/Start.antt =====
-- Instances of the theorems on the end of the gateway.
use ajar_gateway.Common.{◌≡◌, ◌↔◌, refl, true, false, Some, List, [], ◌∷◌, ◌++◌}
use ajar_gateway.Serving.Start.Shutdown.{
  Change, changed_to, shutdown_signal, shutdown_task, IsEnd, shutdown_signal_iff,
}

abbrev woken : List Change
woken = changed_to false ∷ changed_to false ∷ []

shutdown_signal_iff_example :
    ((shutdown_signal false woken ≡ true) ↔ Some IsEnd woken)
    × (shutdown_signal false (woken ++ shutdown_task true) ≡ true)
shutdown_signal_iff_example = shutdown_signal_iff woken

waits : shutdown_signal false woken ≡ false
unfolding shutdown_signal
waits = refl
