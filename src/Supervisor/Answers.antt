-- ===== src/Supervisor/Answers.antt =====
-- electron/main/engineSupervisor.ts: the parsers of the engine's answers to `bus.list`.
use vanilla_bus.Prelude.{Bool, false, List, [], ◌∷◌, Option, none, some, Text, codes, if◌then◌else◌}
use vanilla_bus.Prelude.Strings.{same}
use vanilla_bus.Engine.Value.{Value, boolean, string, array, object, items, get, nonempty_string}
use vanilla_bus.Engine.Parse.{◌>>=◌}

pub data BusInterfaceState : Type 0 where
  up down : BusInterfaceState

-- `blacklist` is none where it is left out
pub record BusInterface : Type 0 where
  pub name : Text
  pub kind : Text
  pub state : BusInterfaceState
  pub driver : Option Text
  pub vendor : Option Text
  pub module_ : Option Text
  pub blacklist : Bool
  pub blacklist_reason : Option Text

pub record BusListWarning : Type 0 where
  pub vendor : Text
  pub module_ : Text
  pub source : Text
  pub message : Text

abbrev pub interface_state : Value → BusInterfaceState
interface_state (string s) = if same s (codes "up") then up else down
interface_state _ = down

abbrev pub text_or : Option Text → Text → Text
text_or none fallback = fallback
text_or (some s) fallback = s

abbrev pub is_true : Value → Bool
is_true (boolean b) = b
is_true _ = false

-- one round of the loop; `none` is its `continue`
pub parse_interface : Value → Option BusInterface
parse_interface (object fs) = do
  name ← nonempty_string (get (codes "name") fs)
  some (record {
    name = name;
    kind = text_or (nonempty_string (get (codes "kind") fs)) (codes "socketcan");
    state = interface_state (get (codes "state") fs);
    driver = nonempty_string (get (codes "driver") fs);
    vendor = nonempty_string (get (codes "vendor") fs);
    module_ = nonempty_string (get (codes "module") fs);
    blacklist = is_true (get (codes "blacklist") fs);
    blacklist_reason =
        if is_true (get (codes "blacklist") fs)
        then nonempty_string (get (codes "blacklist_reason") fs)
        else none;
  })
parse_interface _ = none

pub parse_list_warning : Value → Option BusListWarning
parse_list_warning (object fs) = do
  vendor ← nonempty_string (get (codes "vendor") fs)
  name ← nonempty_string (get (codes "module") fs)
  source ← nonempty_string (get (codes "source") fs)
  message ← nonempty_string (get (codes "message") fs)
  some (record { vendor = vendor; module_ = name; source = source; message = message })
parse_list_warning _ = none

-- the loop: what a round gives up is left out
abbrev pub collect {ℓ} : {A : Type ℓ} → (Value → Option A) → List Value → List A
collect f [] = []
collect f (v ∷ vs) = let rest = collect f vs in elim (f v) [ none ↦ rest | some a ↦ a ∷ rest ]

pub parse_interfaces : Value → Option (List BusInterface)
unfolding parse_interface
parse_interfaces (array vs) = some (collect parse_interface (items vs))
parse_interfaces _ = none

pub parse_list_warnings : Value → List BusListWarning
unfolding parse_list_warning
parse_list_warnings (array vs) = collect parse_list_warning (items vs)
parse_list_warnings _ = []
