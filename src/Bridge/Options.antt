-- ===== src/Bridge/Options.antt =====
-- electron/main/ipc-bridge.ts and electron/main/engineSupervisor.ts: the fields of a raw request that
-- may be left out, written and read.
use vanilla_bus.Prelude.{◌≡◌, refl, ap, ◌∙◌, Bool, false, Option, none, some, Text, codes}
use vanilla_bus.Prelude.Int.{ℤ}
use vanilla_bus.Prelude.Strings.{same, same_refl}
use vanilla_bus.Engine.Value.{Value, undefined, boolean, Fields, get}
use vanilla_bus.Bridge.Types.{TxRawSendRequest}
use vanilla_bus.Bridge.Requests.{parse_optional_bool, optional_integer}
use vanilla_bus.Supervisor.Payload.{opt_field, an_integer}

-- a field that may be there, read under its own name and under another one
pub get-opt_field_other {ℓ} :
    {A : Type ℓ} (k j : Text) (f : A → Value) (o : Option A) (rest : Fields)
    → same j k ≡ false
    → get k (opt_field j f o rest) ≡ get k rest
unfolding get
get-opt_field_other k j f none rest e = refl
get-opt_field_other k j f (some a) rest e = rw (e, get) refl

pub read_bool :
    (k : Text) (o : Option Bool) (rest : Fields)
    → get k rest ≡ undefined
    → parse_optional_bool (get k (opt_field k boolean o rest)) ≡ o
unfolding get
read_bool k none rest e = ap parse_optional_bool e
read_bool k (some b) rest e = rw (same_refl k, get) refl

pub read_integer :
    (k : Text) (o : Option ℤ) (rest : Fields)
    → get k rest ≡ undefined
    → optional_integer (get k (opt_field k an_integer o rest)) ≡ o
unfolding get
read_integer k none rest e = ap optional_integer e
read_integer k (some z) rest e = rw (same_refl k, get) refl

-- the fields of a raw request that may be left out
abbrev pub options : TxRawSendRequest → Fields → Fields
options r rest = opt_field (codes "dlc") an_integer r.dlc (
    opt_field (codes "is_eff") boolean r.is_eff (
      opt_field (codes "is_rtr") boolean r.is_rtr
        (opt_field (codes "is_fd") boolean r.is_fd (opt_field (codes "brs") boolean r.brs rest))))

-- what stands behind a payload has none of these names
abbrev pub IsApart : Fields → Type 0
IsApart rest =
    (get (codes "message") rest ≡ undefined)
    × (get (codes "dlc") rest ≡ undefined)
    × (get (codes "is_eff") rest ≡ undefined)
    × (get (codes "is_rtr") rest ≡ undefined)
    × (get (codes "is_fd") rest ≡ undefined)
    × (get (codes "brs") rest ≡ undefined)

pub get-options :
    (k : Text) (r : TxRawSendRequest) (rest : Fields)
    → same (codes "dlc") k ≡ false
    → same (codes "is_eff") k ≡ false
    → same (codes "is_rtr") k ≡ false
    → same (codes "is_fd") k ≡ false
    → same (codes "brs") k ≡ false
    → get k (options r rest) ≡ get k rest
get-options k r rest a b c d e =
    get-opt_field_other k (codes "dlc") an_integer r.dlc _ a
    ∙ get-opt_field_other k (codes "is_eff") boolean r.is_eff _ b
    ∙ get-opt_field_other k (codes "is_rtr") boolean r.is_rtr _ c
    ∙ get-opt_field_other k (codes "is_fd") boolean r.is_fd _ d
    ∙ get-opt_field_other k (codes "brs") boolean r.brs _ e
