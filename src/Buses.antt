-- ===== src/Buses.antt =====
-- shared/multiBus.ts: several buses that are open at the same time.
mod Tests
use vanilla_bus.Prelude.{
  ℕ, ◌≡◌, ◌⊎◌, refl, ap, inl, inr, Bool, true, false, not, ◌&&◌, ◌||◌, List, [], ◌∷◌, ◌++◌, Option,
  none, some, Text, codes, arith, contains, any, All, ◌≢◌, if◌then◌else◌, Bool-cases,
}
use vanilla_bus.Prelude.Strings.{same, same_sound, same_iff}
use vanilla_bus.Persist.Hints.{join}

pub record NamedOpenBus : Type 0 where
  pub bus_id : Text
  pub name : Text

-- the optional fields of an interface; a field that is not there is the empty text or `false`
pub record BusMeta : Type 0 where
  pub kind : Text
  pub state : Text
  pub vendor : Text
  pub driver : Text
  pub blacklist : Bool
  pub blacklist_reason : Text

pub find_opened_by_name : List NamedOpenBus → Text → Option NamedOpenBus
find_opened_by_name [] name = none
find_opened_by_name (bus ∷ buses) name = elim (same bus.name name) [
  | true ↦ some bus
  | false ↦ find_opened_by_name buses name
]

abbrev pub is_text : Text → Bool
is_text [] = false
is_text (c ∷ s) = true

abbrev pub when : Bool → Text → List Text
when b s = if b then s ∷ [] else []

-- the entries of `bits` that come from `meta`
pub meta_bits : Option BusMeta → List Text
meta_bits none = []
meta_bits (some meta) =
    when (is_text meta.kind && is_text meta.state) (meta.kind ++ codes ", " ++ meta.state)
    ++ when
        (is_text meta.vendor
          && not (same meta.vendor (codes "unknown"))
          && not (same meta.vendor (codes "virtual"))
          && not (same meta.vendor meta.kind))
        meta.vendor
    ++ when meta.blacklist (codes "blacklisted")

pub labelled_with : Text → List Text → Text
labelled_with name [] = name
labelled_with name (bit ∷ bits) = name ++ codes " (" ++ join (bit ∷ bits) ++ codes ")"

pub format_bus_option_label : Text → Option BusMeta → Bool → Text
unfolding meta_bits labelled_with
format_bus_option_label name meta open_ =
    labelled_with name (meta_bits meta ++ when open_ (codes "open"))

-- `formatRememberedBusLabel` of shared/persist.ts
pub format_remembered_bus_label : Text → Option BusMeta → Bool → Bool → Text
unfolding format_bus_option_label
format_remembered_bus_label name (some meta) open_ remembered =
    format_bus_option_label name (some meta) open_
format_remembered_bus_label name none open_ remembered =
    if not remembered || open_
    then format_bus_option_label name none open_
    else name ++ codes " (remembered)"

abbrev pub text_or_else : Text → Text → Text
text_or_else [] fallback = fallback
text_or_else (c ∷ s) fallback = c ∷ s

pub format_vendor_hint : Option BusMeta → Option Text
format_vendor_hint none = none
format_vendor_hint (some meta) =
    let driver = text_or_else meta.driver meta.kind in
    if not (is_text driver) || same meta.vendor (codes "virtual")
    then none
    else if is_text meta.vendor
        && not (same meta.vendor (codes "unknown"))
        && not (same meta.vendor driver)
    then some (meta.vendor ++ codes " · " ++ driver)
    else some driver

pub find_blacklisted : List BusMeta → Option BusMeta
find_blacklisted [] = none
find_blacklisted (meta ∷ metas) = elim meta.blacklist [
  | true ↦ some meta
  | false ↦ find_blacklisted metas
]

-- what follows once the interface is looked up; it was found by its `blacklist`
pub warning_of : Option BusMeta → List Text → Option Text
warning_of none [] = none
warning_of none (message ∷ messages) = some message
warning_of (some meta) messages =
    if is_text meta.blacklist_reason then some meta.blacklist_reason else elim messages [
      | [] ↦ some (
          codes
            "A vendor SDK has blacklisted the mainline SocketCAN driver. See docs/socketcan-vendors.md.")
      | message ∷ later ↦ some message
    ]

pub bus_blacklist_warning : List BusMeta → List Text → Option Text
unfolding find_blacklisted warning_of
bus_blacklist_warning interfaces warnings = warning_of (find_blacklisted interfaces) warnings

abbrev pub open_bus_names : List NamedOpenBus → List Text
open_bus_names [] = []
open_bus_names (bus ∷ buses) = bus.name ∷ open_bus_names buses

-- `opened.filter((item) => item.busId !== closedBusId)`
abbrev pub still_open : Text → List NamedOpenBus → List NamedOpenBus
still_open closed [] = []
still_open closed (bus ∷ buses) = elim (same bus.bus_id closed) [
  | true ↦ still_open closed buses
  | false ↦ bus ∷ still_open closed buses
]

abbrev pub first_or : Text → List Text → Text
first_or fallback [] = fallback
first_or fallback (name ∷ later) = name

unfoldable pub remaining_selected_bus : List NamedOpenBus → Text → Text → Text
remaining_selected_bus opened closed selected =
    let remaining = open_bus_names (still_open closed opened) in
    if contains selected remaining then selected else first_or selected remaining

-- a bus of this name is open, and it is not the closed one
abbrev pub stays_open : Text → Text → List NamedOpenBus → Bool
stays_open closed name opened =
    any (λ (bus : NamedOpenBus). same bus.name name && not (same bus.bus_id closed)) opened

-- the closed bus alone, under however many names
abbrev pub AllClosed : Text → List NamedOpenBus → Type 0
AllClosed closed opened = All (λ (bus : NamedOpenBus). bus.bus_id ≡ closed) opened

-- the name of the first bus of the list that is not the closed one
abbrev pub IsFirstOpen : Text → List NamedOpenBus → Text → Type 0
IsFirstOpen closed opened name =
    (bus : NamedOpenBus) × (before : List NamedOpenBus) × (after : List NamedOpenBus) × (opened
      ≡ before ++ bus ∷ after)
    × AllClosed closed before
    × (bus.bus_id ≢ closed)
    × (bus.name ≡ name)

contains-open_bus_names :
    (closed name : Text) (opened : List NamedOpenBus)
    → contains name (open_bus_names (still_open closed opened)) ≡ stays_open closed name opened
contains-open_bus_names closed name [] = refl
contains-open_bus_names closed name (bus ∷ opened) =
    ground (arith, contains-open_bus_names closed name opened)

first_or-IsFirstOpen :
    (closed selected : Text) (opened : List NamedOpenBus)
    → (let next = first_or selected (open_bus_names (still_open closed opened)) in
        (AllClosed closed opened × (next ≡ selected)) ⊎ IsFirstOpen closed opened next)
first_or-IsFirstOpen closed selected [] = inl (tt, refl)
first_or-IsFirstOpen closed selected (bus ∷ opened) = elim (Bool-cases (same bus.bus_id closed)) [
  | inl e ↦
      let shut = same_sound bus.bus_id closed e in
      rw (e, still_open)
        (elim (first_or-IsFirstOpen closed selected opened) [
          | inl (gone, kept) ↦ inl ((shut, gone), kept)
          | inr (first, before, after, cut, gone, there, named) ↦
              inr (first, bus ∷ before, after, ap (λ l. bus ∷ l) cut, (shut, gone), there, named)
        ])
  | inr e ↦
      rw (e, still_open)
        (inr
          (bus, [], opened, refl, tt, λ h. ground (arith, e, same_iff bus.bus_id closed, h), refl))
]

-- After a bus is closed, one of three holds. A bus with the selected name that is not the closed one
-- is open: the selection stays. None is, but some bus other than the closed one is open: the first of
-- those is selected. No other bus is open: the selection stays.
pub remaining_selected_bus_lem :
    (opened : List NamedOpenBus) (closed selected : Text)
    → (let next = remaining_selected_bus opened closed selected in
        ((stays_open closed selected opened ≡ true) × (next ≡ selected))
        ⊎ ((stays_open closed selected opened ≡ false) × IsFirstOpen closed opened next)
        ⊎ (AllClosed closed opened × (next ≡ selected)))
unfolding remaining_selected_bus
remaining_selected_bus_lem opened closed selected =
    let named = contains-open_bus_names closed selected opened in
    elim (Bool-cases (stays_open closed selected opened)) [
      | inl e ↦ inl (e, ground (arith, e, named))
      | inr e ↦ inr (
          rw (named, e)
            (elim (first_or-IsFirstOpen closed selected opened) [
              | inl gone ↦ inr gone
              | inr first ↦ inl (refl, first)
            ]))
    ]
