-- ===== src/Watch/Registry/Endings.antt =====
-- `endLocked`, the queueing of an item, and the loop of `invalidateLocked` over the watchers, in
-- internal/watch/hub.go: what they do to each watcher.
use watchd.Base.{
  ℕ, ◌≡◌, true, false, not, ◌&&◌, List, [], ◌∷◌, ◌++◌, none, some, if◌then◌else◌, Text, text_eq,
  ◌==◌, mem, length, ltb, arith, Bool-cases, inl, inr,
}
use watchd.Watch.Event.{ResyncReason, schema_changed, slow_watcher}
use watchd.Watch.Registry.{Registry, Watcher, Queued, remove_locked, end_locked, end_table, offer}
use watchd.Watch.Registry.Index.{Indexed, mem-without, remove_locked-Indexed}

pub end_locked_watchers :
    (w : ℕ) (reason : ResyncReason) (g : Registry) (x : ℕ)
    → mem x (end_locked w reason g).watchers ≡ (mem x g.watchers && not (w == x))
unfolding end_locked remove_locked
end_locked_watchers w reason g x = ground (arith, mem-without x w g.watchers)

pub end_locked_memory :
    (w : ℕ) (reason : ResyncReason) (g : Registry) (x : ℕ)
    → (end_locked w reason g).memory x ≡ (
        if w == x && mem x g.watchers
        then record (g.memory x) { overflow = some reason }
        else g.memory x)
unfolding end_locked remove_locked
end_locked_memory w reason g x = ground arith

pub end_locked_queue_size :
    (w : ℕ) (reason : ResyncReason) (g : Registry)
    → (end_locked w reason g).queue_size ≡ g.queue_size
unfolding end_locked remove_locked
end_locked_queue_size w reason g = ground arith

-- The index speaks of projections and scopes only, so it outlives changes to the rest of a watcher.
pub rewritten-Indexed :
    (g : Registry) (memory : ℕ → Watcher)
    → ((x : ℕ)
        → mem x g.watchers ≡ true
        → ((memory x).projection ≡ (g.memory x).projection)
          × ((memory x).scope ≡ (g.memory x).scope))
    → ((x : ℕ) → mem x g.watchers ≡ true → (memory x).overflow ≡ none)
    → Indexed g
    → Indexed (record g { memory = memory })
rewritten-Indexed g memory same open_ i = record {
  columns = i.columns;
  listed = λ table column scope x. ground (arith, i.listed table column scope x, same x);
  once = i.once;
  running = open_;
}

removed_gone :
    (w : ℕ) (g : Registry)
    → (remove_locked w g).1 ≡ true
    → mem w (remove_locked w g).0.watchers ≡ false
unfolding remove_locked
removed_gone w g h = ground (arith, mem-without w w g.watchers)

pub end_locked-Indexed :
    (w : ℕ) (reason : ResyncReason) (g : Registry) → Indexed g → Indexed (end_locked w reason g)
unfolding end_locked
end_locked-Indexed w reason g i = elim (Bool-cases (remove_locked w g).1) [
  | inl e ↦ rw e (
      rewritten-Indexed (remove_locked w g).0 _ (λ x h. ground arith)
        (λ x h. ground (arith, removed_gone w g e, kept.running x)) kept)
  | inr e ↦ rw e kept
]
  where
    kept : Indexed (remove_locked w g).0
    kept = remove_locked-Indexed w g i

pub offer-Indexed : (item : Queued) (w : ℕ) (g : Registry) → Indexed g → Indexed (offer item w g)
unfolding offer
offer-Indexed item w g i = elim (Bool-cases (ltb (length (g.memory w).queue) g.queue_size)) [
  | inl e ↦
      rw e (rewritten-Indexed g _ (λ x h. ground arith) (λ x h. ground (arith, i.running x)) i)
  | inr e ↦ rw e (end_locked-Indexed w slow_watcher g i)
]

pub end_table-Indexed :
    (table : Text) (ws : List ℕ) (g : Registry) → Indexed g → Indexed (end_table table ws g)
unfolding end_table
end_table-Indexed table [] g i = i
end_table-Indexed table (w ∷ ws) g i =
    elim (Bool-cases (text_eq (g.memory w).projection.table table)) [
      | inl e ↦ rw e (
          end_table-Indexed table ws (end_locked w schema_changed g)
            (end_locked-Indexed w schema_changed g i))
      | inr e ↦ rw e (end_table-Indexed table ws g i)
    ]

-- Every registered watcher of the table that the loop visits is ended, and no other changes.
pub end_table_watchers :
    (table : Text) (ws : List ℕ) (g : Registry) (x : ℕ)
    → mem x (end_table table ws g).watchers
      ≡ (mem x g.watchers && not (mem x ws && text_eq (g.memory x).projection.table table))
unfolding end_table
end_table_watchers table [] g x = ground arith
end_table_watchers table (w ∷ ws) g x = ground (
  arith,
  end_table_watchers table ws g x,
  end_table_watchers table ws (end_locked w schema_changed g) x,
  end_locked_watchers w schema_changed g x,
  end_locked_memory w schema_changed g x,
)

pub end_table_memory :
    (table : Text) (ws : List ℕ) (g : Registry) (x : ℕ)
    → (end_table table ws g).memory x ≡ (
        if mem x g.watchers && (mem x ws && text_eq (g.memory x).projection.table table)
        then record (g.memory x) { overflow = some schema_changed }
        else g.memory x)
unfolding end_table
end_table_memory table [] g x = ground arith
end_table_memory table (w ∷ ws) g x = ground (
  arith,
  end_table_memory table ws g x,
  end_table_memory table ws (end_locked w schema_changed g) x,
  end_locked_watchers w schema_changed g x,
  end_locked_memory w schema_changed g x,
)

pub offer_memory :
    (item : Queued) (w : ℕ) (g : Registry) (x : ℕ)
    → mem w g.watchers ≡ true
    → (offer item w g).memory x ≡ (
        if w == x
        then (if ltb (length (g.memory x).queue) g.queue_size
            then record (g.memory x) { queue = (g.memory x).queue ++ item ∷ [] }
            else record (g.memory x) { overflow = some slow_watcher })
        else g.memory x)
unfolding offer
offer_memory item w g x h = ground (arith, end_locked_memory w slow_watcher g x)

pub offer_watchers :
    (item : Queued) (w : ℕ) (g : Registry) (x : ℕ)
    → mem x (offer item w g).watchers
      ≡ (mem x g.watchers && not (w == x && not (ltb (length (g.memory x).queue) g.queue_size)))
unfolding offer
offer_watchers item w g x = ground (arith, end_locked_watchers w slow_watcher g x)
