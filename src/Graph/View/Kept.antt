-- ===== src/Graph/View/Kept.antt =====
-- electron/renderer/src/graph/useGraphModel.ts: what the calls of the view leave as it is in the
-- store.
use vanilla_bus.Prelude.{
  ℕ, ◌≡◌, refl, ap, ◌∙◌, true, List, [], ◌∷◌, ◌++◌, Option, none, some, Text, codes, ◌==◌, length,
  contains, Bool-cases, Option-cases, inl, inr,
}
use vanilla_bus.Prelude.Strings.{same_iff}
use vanilla_bus.Prelude.Assoc.{lookup}
use vanilla_bus.Engine.Types.{DbcCatalogMessage}
use vanilla_bus.Graph.Store.{
  GraphStore, trim_all, set_window_sec, clear_samples, same_bus, set_active_bus, apply_dbc_catalog,
  ensure_color, select_keys, set_selected, toggle_selected,
}
use vanilla_bus.Graph.View.{demo_catalog, demo_selected, demo_store}

-- the same clock state and bus in the second store
abbrev pub Kept : GraphStore → GraphStore → Type 0
Kept s t = (t.paused ≡ s.paused) × (t.active_bus_id ≡ s.active_bus_id)

pub Kept-then : (s t u : GraphStore) → Kept s t → Kept t u → Kept s u
Kept-then s t u (p, b) (q, c) = (q ∙ p, c ∙ b)

pub set_window_sec-Kept : (s : GraphStore) (sec : ℕ) → Kept s (set_window_sec s sec)
unfolding set_window_sec trim_all
set_window_sec-Kept s sec = (refl, refl)

ensure_color-Kept : (s : GraphStore) (key : Text) → Kept s (ensure_color s key).0
unfolding ensure_color
ensure_color-Kept s key = elim (Option-cases (lookup key s.colors)) [
  | inl e ↦ rw (e, ensure_color) (refl, refl)
  | inr (color, e) ↦ rw (e, ensure_color) (refl, refl)
]

select_keys-Kept : (s : GraphStore) (keys seen : List Text) → Kept s (select_keys s keys seen)
unfolding select_keys
select_keys-Kept s [] seen = (refl, refl)
select_keys-Kept s (key ∷ keys) seen = elim (Bool-cases (contains key seen)) [
  | inl e ↦ rw (e, select_keys) (select_keys-Kept s keys seen)
  | inr e ↦
      let taken : GraphStore = record s { selected = s.selected ++ key ∷ [] } in
      let colored = (ensure_color taken key).0 in
      rw (e, select_keys)
        (Kept-then s colored (select_keys colored keys (key ∷ seen)) (ensure_color-Kept taken key)
          (select_keys-Kept colored keys (key ∷ seen)))
]

pub set_selected-Kept : (s : GraphStore) (keys : List Text) → Kept s (set_selected s keys)
unfolding set_selected
set_selected-Kept s keys = select_keys-Kept (record s { selected = [] }) keys []

pub toggle_selected-Kept : (s : GraphStore) (key : Text) → Kept s (toggle_selected s key)
unfolding toggle_selected
toggle_selected-Kept s key = elim (Bool-cases (contains key s.selected)) [
  | inl e ↦ rw (e, toggle_selected) (refl, refl)
  | inr e ↦
      rw (e, toggle_selected)
        (ensure_color-Kept (record s { selected = s.selected ++ key ∷ [] }) key)
]

pub apply_dbc_catalog-Kept :
    (s : GraphStore) (messages : List DbcCatalogMessage) → Kept s (apply_dbc_catalog s messages)
unfolding apply_dbc_catalog
apply_dbc_catalog-Kept s messages = (refl, refl)

pub set_active_bus-paused :
    (s : GraphStore) (bus : Option Text) → (set_active_bus s bus).paused ≡ s.paused
unfolding set_active_bus clear_samples
set_active_bus-paused s bus = elim (Bool-cases (same_bus s.active_bus_id bus)) [
  | inl e ↦ rw (e, set_active_bus) refl
  | inr e ↦ rw (e, set_active_bus) refl
]

same_bus_sound : (a b : Option Text) → same_bus a b ≡ true → a ≡ b
same_bus_sound none none h = refl
same_bus_sound (some a) (some b) h = ap some ((same_iff a b).0 h)
same_bus_sound none (some b) h = cc
same_bus_sound (some a) none h = cc

set_active_bus-bus :
    (s : GraphStore) (bus : Option Text) → (set_active_bus s bus).active_bus_id ≡ bus
unfolding set_active_bus clear_samples
set_active_bus-bus s bus = elim (Bool-cases (same_bus s.active_bus_id bus)) [
  | inl e ↦ rw (e, set_active_bus) (same_bus_sound s.active_bus_id bus e)
  | inr e ↦ rw (e, set_active_bus) refl
]

pub demo_store-Kept :
    (s : GraphStore)
    → ((demo_store s).paused ≡ s.paused) × ((demo_store s).active_bus_id ≡ some (codes "demo"))
unfolding demo_store
demo_store-Kept s =
    let chosen = set_active_bus s (some (codes "demo")) in
    let known = apply_dbc_catalog chosen demo_catalog in
    let (p, b) = apply_dbc_catalog-Kept chosen demo_catalog in
    let paused = p ∙ set_active_bus-paused s (some (codes "demo")) in
    let bus = b ∙ set_active_bus-bus s (some (codes "demo")) in
    let (q, c) = set_selected-Kept known demo_selected in
    elim (Bool-cases (length known.selected == 0)) [
      | inl e ↦ rw (e, demo_store) (q ∙ paused, c ∙ bus)
      | inr e ↦ rw (e, demo_store) (paused, bus)
    ]
