-- ===== src/Watch/Registry/Index.antt =====
-- `watchers` against `routes` in internal/watch/hub.go: the invariant that ties the two.
use watchd.Base.{
  ℕ, ◌≡◌, refl, Bool, true, false, not, ◌&&◌, ◌||◌, List, [], ◌∷◌, ◌++◌, none, if◌then◌else◌, Text,
  text_eq, text_eq_iff, ◌==◌, mem, arith, Bool-cases, inl, inr,
}
use watchd.Watch.Registry.{
  Registry, Watcher, Route, Projection, put, scopes_of, change_route, register_locked,
  remove_locked, without,
}

-- The watcher reads this scope of this table by this column.
abbrev pub keyed : Watcher → Text → Text → Text → Bool
keyed v table column scope =
    text_eq v.projection.table table
    && (text_eq v.projection.spec.scope_column column && text_eq v.scope scope)

abbrev pub has_column : Text → List Route → Bool
has_column column [] = false
has_column column (r ∷ rs) = text_eq r.scope_column column || has_column column rs

abbrev pub DistinctColumns : List Route → Type 0
DistinctColumns [] = Unit
DistinctColumns (r ∷ rs) = (has_column r.scope_column rs ≡ false) × DistinctColumns rs

abbrev pub Once : List ℕ → Type 0
Once [] = Unit
Once (w ∷ ws) = (mem w ws ≡ false) × Once ws

pub record Indexed (g : Registry) : Type 0 where
  pub columns : (table : Text) → DistinctColumns (g.routes table)
  pub listed :
      (table column scope : Text) (w : ℕ)
      → mem w (scopes_of column (g.routes table) scope)
        ≡ (mem w g.watchers && keyed (g.memory w) table column scope)
  pub once : (table column scope : Text) → Once (scopes_of column (g.routes table) scope)
  pub running : (w : ℕ) → mem w g.watchers ≡ true → (g.memory w).overflow ≡ none

abbrev edit : Text → (List ℕ → List ℕ) → (Text → List ℕ) → Text → List ℕ
edit scope f scopes = put scopes scope (f (scopes scope))

scopes_of-change_route :
    (column : Text) (scope : Text) (f : List ℕ → List ℕ) (rs : List Route) (c s : Text)
    → scopes_of c (change_route column (edit scope f) rs) s ≡ (
        if text_eq column c
        then (if text_eq scope s then f (scopes_of column rs scope) else scopes_of column rs s)
        else scopes_of c rs s)
unfolding change_route
scopes_of-change_route column scope f [] c s =
    ground (arith, text_eq_iff column c, text_eq_iff scope s)
scopes_of-change_route column scope f (r ∷ rs) c s = ground (
  arith,
  text_eq_iff column c,
  text_eq_iff scope s,
  text_eq_iff r.scope_column column,
  text_eq_iff r.scope_column c,
  scopes_of-change_route column scope f rs c s,
)

has_column-change_route :
    (column : Text) (f : (Text → List ℕ) → Text → List ℕ) (rs : List Route) (c : Text)
    → has_column c (change_route column f rs) ≡ (has_column c rs || text_eq column c)
unfolding change_route
has_column-change_route column f [] c = ground arith
has_column-change_route column f (r ∷ rs) c = ground (
  arith,
  text_eq_iff column c,
  text_eq_iff r.scope_column column,
  text_eq_iff r.scope_column c,
  has_column-change_route column f rs c,
)

change_route-DistinctColumns :
    (column : Text) (f : (Text → List ℕ) → Text → List ℕ) (rs : List Route)
    → DistinctColumns rs
    → DistinctColumns (change_route column f rs)
unfolding change_route
change_route-DistinctColumns column f [] d = (refl, tt)
change_route-DistinctColumns column f (r ∷ rs) d = ground (
  arith,
  text_eq_iff r.scope_column column,
  text_eq_iff column r.scope_column,
  has_column-change_route column f rs r.scope_column,
  change_route-DistinctColumns column f rs d.1,
)

mem-snoc : (x w : ℕ) (ws : List ℕ) → mem x (ws ++ w ∷ []) ≡ (mem x ws || x == w)
mem-snoc x w [] = ground arith
mem-snoc x w (v ∷ ws) = ground (arith, mem-snoc x w ws)

pub mem-without : (x w : ℕ) (ws : List ℕ) → mem x (without w ws) ≡ (mem x ws && not (w == x))
mem-without x w [] = ground arith
mem-without x w (v ∷ ws) = ground (arith, mem-without x w ws)

Once-snoc : (w : ℕ) (ws : List ℕ) → mem w ws ≡ false → Once ws → Once (ws ++ w ∷ [])
Once-snoc w [] h o = (refl, tt)
Once-snoc w (v ∷ ws) h o = ground (arith, mem-snoc v w ws, Once-snoc w ws)

Once-without : (w : ℕ) (ws : List ℕ) → Once ws → Once (without w ws)
Once-without w [] o = tt
Once-without w (v ∷ ws) o = ground (arith, mem-without v w ws, Once-without w ws o.1)

-- How the routes read after one scope of one route has changed.
abbrev edited : Registry → Projection → Text → (List ℕ → List ℕ) → Text → List Route
edited g p scope f =
    put g.routes p.table (change_route p.spec.scope_column (edit scope f) (g.routes p.table))

scopes_of-edited :
    (g : Registry) (p : Projection) (scope : Text) (f : List ℕ → List ℕ) (table column s : Text)
    → scopes_of column (edited g p scope f table) s ≡ (
        if text_eq p.table table && (text_eq p.spec.scope_column column && text_eq scope s)
        then f (scopes_of column (g.routes table) s)
        else scopes_of column (g.routes table) s)
scopes_of-edited g p scope f table column s = ground (
  arith,
  text_eq_iff p.table table,
  text_eq_iff p.spec.scope_column column,
  text_eq_iff scope s,
  scopes_of-change_route p.spec.scope_column scope f (g.routes p.table) column s,
)

edited-DistinctColumns :
    (g : Registry) (p : Projection) (scope : Text) (f : List ℕ → List ℕ) (table : Text)
    → ((t : Text) → DistinctColumns (g.routes t))
    → DistinctColumns (edited g p scope f table)
edited-DistinctColumns g p scope f table d = elim (Bool-cases (text_eq p.table table)) [
  | inl e ↦ rw e (
      change_route-DistinctColumns p.spec.scope_column (edit scope f) (g.routes p.table)
        (d p.table))
  | inr e ↦ rw e (d table)
]

-- A new watcher is listed where its own table, column and scope say.
pub register_locked-Indexed :
    (w : ℕ) (g : Registry)
    → mem w g.watchers ≡ false
    → (g.memory w).overflow ≡ none
    → Indexed g
    → Indexed (register_locked w g)
unfolding register_locked
register_locked-Indexed w g new open_ i = record {
  columns =
      λ table. edited-DistinctColumns g v.projection v.scope (λ ws. ws ++ w ∷ []) table i.columns;
  listed = λ table column scope x.
      rw (scopes_of-edited g v.projection v.scope (λ ws. ws ++ w ∷ []) table column scope) (
        ground (
          arith,
          mem-snoc x w (scopes_of column (g.routes table) scope),
          i.listed table column scope x,
        ));
  once = λ table column scope.
      rw (scopes_of-edited g v.projection v.scope (λ ws. ws ++ w ∷ []) table column scope) (
        ground (
          arith,
          Once-snoc w (scopes_of column (g.routes table) scope),
          i.listed table column scope w,
          i.once table column scope,
        ));
  running = λ x h. ground (arith, i.running x);
}
  where
    v : Watcher
    v = g.memory w

-- Removing a watcher takes it off every list.
pub remove_locked-Indexed : (w : ℕ) (g : Registry) → Indexed g → Indexed (remove_locked w g).0
unfolding remove_locked
remove_locked-Indexed w g i = elim (Bool-cases (mem w g.watchers)) [
  | inr e ↦ rw e i
  | inl e ↦ rw e (record {
    columns = λ table. edited-DistinctColumns g v.projection v.scope (without w) table i.columns;
    listed = λ table column scope x.
        rw (scopes_of-edited g v.projection v.scope (without w) table column scope) (
          ground (
            arith,
            mem-without x w g.watchers,
            mem-without x w (scopes_of column (g.routes table) scope),
            i.listed table column scope x,
          ));
    once = λ table column scope.
        rw (scopes_of-edited g v.projection v.scope (without w) table column scope) (
          ground (
            arith,
            Once-without w (scopes_of column (g.routes table) scope),
            i.once table column scope,
          ));
    running = λ x h. ground (arith, mem-without x w g.watchers, i.running x);
  })
]
  where
    v : Watcher
    v = g.memory w
