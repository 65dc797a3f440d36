-- ===== src/Watch/Registry.antt =====
-- The watchers of internal/watch/hub.go: the fields `watchers` and `routes` of `Hub`, and the
-- `watcher`s that they point to, which live in a memory addressed by number.
pub mod Index
pub mod Endings
use watchd.Base.{
  ℕ, Bool, true, false, not, List, [], ◌∷◌, ◌++◌, Option, none, some, if◌then◌else◌, ltb, length,
  Text, text_eq, ◌==◌, filter, ◌||◌, update, mem,
}
use watchd.Cdc.Transaction.{Transaction, Change, ProjectionSpec}
use watchd.Watch.Event.{ResyncReason}

-- `projection`: a spec and its qualified table.
pub record Projection : Type 0 where
  pub spec : ProjectionSpec
  pub table : Text

-- `queued`, with `memo` true where the delivery is shared.
pub record Queued : Type 0 where
  pub transaction : Transaction
  pub changes : List Change
  pub memo : Bool

-- `watcher`. The channel `queue` is the list of what waits in it; `overflow` and `reason` are
-- one field, there once the channel is closed.
pub record Watcher : Type 0 where
  pub projection : Projection
  pub scope : Text
  pub queue : List Queued
  pub overflow : Option ResyncReason

-- `route`: of one scope column, the watchers of each scope value. A missing key reads as no
-- watchers.
pub record Route : Type 0 where
  pub scope_column : Text
  pub scopes : Text → List ℕ

pub record Registry : Type 0 where
  pub queue_size : ℕ
  pub watchers : List ℕ
  pub memory : ℕ → Watcher
  pub routes : Text → List Route

-- `m[k] = v` of a map with string keys.
abbrev pub put {ℓ} : {A : Type ℓ} → (Text → A) → Text → A → Text → A
put m k v j = if text_eq k j then v else m j

-- `routeLocked` with what its caller then does to the route: the first route of the scope column
-- changes, and where there is none a new one is appended.
unfoldable pub change_route : Text → ((Text → List ℕ) → Text → List ℕ) → List Route → List Route
change_route column f [] = record { scope_column = column; scopes = f (λ _. []) } ∷ []
change_route column f (r ∷ rs) =
    if text_eq r.scope_column column
    then record r { scopes = f r.scopes } ∷ rs
    else r ∷ change_route column f rs

abbrev change_scope : Projection → Text → (List ℕ → List ℕ) → Registry → Registry
change_scope p scope f g = record g {
  routes = put g.routes p.table (
      change_route p.spec.scope_column (λ scopes. put scopes scope (f (scopes scope)))
        (g.routes p.table));
}

-- `registerLocked`.
unfoldable pub register_locked : ℕ → Registry → Registry
unfolding change_route
register_locked w g =
    let v = g.memory w in
    change_scope v.projection v.scope (λ ws. ws ++ w ∷ []) (record g { watchers = w ∷ g.watchers })

abbrev pub without : ℕ → List ℕ → List ℕ
without w = filter (λ other. not (w == other))

-- `removeLocked`, with whether the watcher was registered.
unfoldable pub remove_locked : ℕ → Registry → Registry × Bool
unfolding change_route
remove_locked w g =
    let v = g.memory w in
    if mem w g.watchers
    then (
      change_scope v.projection v.scope (without w) (record g { watchers = without w g.watchers }),
      true,
    )
    else (g, false)

-- `endLocked`: a registered watcher is removed, its reason set and its channel closed.
unfoldable pub end_locked : ℕ → ResyncReason → Registry → Registry
end_locked w reason g =
    let (g', removed) = remove_locked w g in
    if removed
    then record g' { memory = update g'.memory w (record (g'.memory w) { overflow = some reason }) }
    else g'

-- The loop of `invalidateLocked` over the watchers.
unfoldable pub end_table : Text → List ℕ → Registry → Registry
end_table table [] g = g
end_table table (w ∷ ws) g = end_table table ws (
    if text_eq (g.memory w).projection.table table
    then end_locked w ResyncReason.schema_changed g
    else g)

-- `select { case w.queue <- item: default: h.dropLocked(w) }`
unfoldable pub offer : Queued → ℕ → Registry → Registry
offer item w g =
    if ltb (length (g.memory w).queue) g.queue_size
    then record g {
      memory = update g.memory w (record (g.memory w) { queue = (g.memory w).queue ++ item ∷ [] });
    }
    else end_locked w ResyncReason.slow_watcher g

-- The scopes of the first route of a scope column.
abbrev pub scopes_of : Text → List Route → Text → List ℕ
scopes_of column [] scope = []
scopes_of column (r ∷ rs) scope =
    if text_eq r.scope_column column then r.scopes scope else scopes_of column rs scope
