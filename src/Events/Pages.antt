-- ===== src/Events/Pages.antt =====
-- Pages of the event store.
use save_knot.Prelude.{ℕ, ltb, not, ◌||◌, List, [], ◌∷◌, keep, ◌≡◌, refl, arith, All}
use save_knot.Events.{
  EventRow, Activity, cutoff, transient_types, is_transient, prune_events, is_visible,
  load_event_page,
}
use save_knot.Events.Bounds.{IsDurable}

visible_kept :
    (now until : ℕ) (rows : List EventRow)
    → All IsDurable rows
    → keep (is_visible now until) (
        keep
          (λ r. not (ltb r.timestamp (cutoff now) || is_transient transient_types r.payload))
          rows)
      ≡ keep (is_visible now until) rows
unfolding keep
visible_kept now until [] h = refl
visible_kept now until (r ∷ rows) h = ground (arith, h.0, visible_kept now until rows h.1)

-- Pruning never hides an event from a page: where the store holds no transient event, every page that
-- is read at the time of a pruning is the same after it as before, and so is the total.
pub load_event_page-prune_events :
    (now until offset limit : ℕ) (a : Activity)
    → All IsDurable a.rows
    → load_event_page now until offset limit (prune_events now transient_types a)
      ≡ load_event_page now until offset limit a
unfolding load_event_page prune_events
load_event_page-prune_events now until offset limit a h = rw (visible_kept now until a.rows h) refl
