-- ===== src/Buses/Tests.antt =====
-- Two open buses, of which one is closed.
use vanilla_bus.Prelude.{◌≡◌, ◌⊎◌, refl, true, false, List, [], ◌∷◌, codes}
use vanilla_bus.Prelude.Strings.{same}
use vanilla_bus.Buses.{
  NamedOpenBus, stays_open, AllClosed, IsFirstOpen, remaining_selected_bus,
  remaining_selected_bus_lem,
}

abbrev two_open : List NamedOpenBus
two_open =
    record { bus_id = codes "b1"; name = codes "vcan0" }
    ∷ record { bus_id = codes "b2"; name = codes "vcan1" }
    ∷ []

remaining_selected_bus_lem_example :
    (let next = remaining_selected_bus two_open (codes "b1") (codes "vcan0") in
      ((stays_open (codes "b1") (codes "vcan0") two_open ≡ true) × (next ≡ codes "vcan0"))
      ⊎ ((stays_open (codes "b1") (codes "vcan0") two_open ≡ false)
          × IsFirstOpen (codes "b1") two_open next)
      ⊎ (AllClosed (codes "b1") two_open × (next ≡ codes "vcan0")))
remaining_selected_bus_lem_example =
    remaining_selected_bus_lem two_open (codes "b1") (codes "vcan0")

-- the selection moves on to the other bus
moves_on : remaining_selected_bus two_open (codes "b1") (codes "vcan0") ≡ codes "vcan1"
unfolding remaining_selected_bus same
moves_on = refl
