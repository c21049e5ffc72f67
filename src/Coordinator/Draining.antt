-- ===== src/Coordinator/Draining.antt =====
-- The worker of runAutomaticSync against the callers of queueAutomaticSync.
use save_knot.Prelude.{
  ℕ, zero, suc, ◌≤◌, Bool, true, false, not, ◌||◌, List, [], ◌∷◌, String, ◌==◌, ◌≡◌, refl, sym, any,
  keep, length, All, arith, eq_iff, eq_refl, ◌⊎◌, inl, inr,
}
use save_knot.Coordinator.{
  Worker, waiting, draining, stopped, SyncQueue, is_queued, take_game, send_wake, Quiet, wakes,
  receives, takes, finds_none, Step, adds, stops, quiet, IsReachable, starts, continues, Settles,
  done, goes,
}

abbrev pub is_attempted : String → SyncQueue → Bool
is_attempted g q = any (λ h. h == g) q.attempted

abbrev pub is_running : Worker → Bool
is_running waiting = true
is_running draining = true
is_running stopped = false

-- A worker at its select has nothing to do, or is woken, or will be by a caller.
pub data IsAwake (q : SyncQueue) : Type 0 where
  busy : q.worker ≡ draining → IsAwake q
  ended : q.worker ≡ stopped → IsAwake q
  idle : q.games ≡ [] → IsAwake q
  woken : q.wake ≡ true → IsAwake q
  called : (n : ℕ) → q.callers ≡ suc n → IsAwake q

Quiet-IsAwake : (p q : SyncQueue) → Quiet p q → IsAwake q
Quiet-IsAwake p q (wakes r n e) = woken refl
Quiet-IsAwake p q (receives r w e) = busy refl
Quiet-IsAwake p q (takes r g w e) = busy w
Quiet-IsAwake p q (finds_none r w e) = idle e

Step-IsAwake : (p q : SyncQueue) → Step p q → IsAwake q
Step-IsAwake p q (adds r g) = called r.callers refl
Step-IsAwake p q (stops r w) = ended refl
Step-IsAwake p q (quiet r s t) = Quiet-IsAwake r s t

pub reachable-IsAwake : (q : SyncQueue) → IsReachable q → IsAwake q
reachable-IsAwake q starts = idle refl
reachable-IsAwake q (continues p r h s) = Step-IsAwake p r s

-- Where each game that was queued or attempted is attempted, and none is queued
record Drained (q r : SyncQueue) : Type 0 where
  settles : Settles q r
  none_left : r.games ≡ []
  all_attempted :
      (g : String) → (is_queued g q || is_attempted g q) ≡ true → is_attempted g r ≡ true

length-keep-le :
    (x : String) (games : List String) → length (keep (λ h. not (h == x)) games) ≤ length games
unfolding keep
length-keep-le x [] = omega arith
length-keep-le x (g ∷ games) = ground (arith, length-keep-le x games)

any-kept :
    (g x : String) (games : List String)
    → any (λ h. h == g) games ≡ true
    → (any (λ h. h == g) (keep (λ h. not (h == x)) games) || (x == g)) ≡ true
unfolding any keep
any-kept g x [] h = ground (arith, h)
any-kept g x (y ∷ games) h =
    ground (arith, h, any-kept g x games, eq_iff y x, eq_iff y g, eq_iff x g)

taken-le :
    (n : ℕ) (x : String) (rest games : List String)
    → games ≡ x ∷ rest
    → length games ≤ suc n
    → length (keep (λ h. not (h == x)) games) ≤ n
unfolding keep
taken-le n x rest games e le = rw e (ground (arith, rw e at le, length-keep-le x rest, eq_refl x))

taken-attempted :
    (g x : String) (rest games attempted : List String)
    → games ≡ x ∷ rest
    → (any (λ h. h == g) games || any (λ h. h == g) attempted) ≡ true
    → (any (λ h. h == g) (keep (λ h. not (h == x)) games) || any (λ h. h == g) (x ∷ attempted))
      ≡ true
unfolding any keep
taken-attempted g x rest games attempted e h =
    rw e (ground (arith, rw e at h, any-kept g x rest, eq_refl x, eq_iff x g))

only-attempted :
    (g : String) (games attempted : List String)
    → games ≡ []
    → (any (λ h. h == g) games || any (λ h. h == g) attempted) ≡ true
    → any (λ h. h == g) attempted ≡ true
unfolding any
only-attempted g games attempted e h = rw e at h

games-cases :
    (games : List String)
    → (games ≡ []) ⊎ ((x : String) × (rest : List String) × (games ≡ x ∷ rest))
games-cases [] = inl refl
games-cases (x ∷ rest) = inr (x, rest, refl)

finished : (q : SyncQueue) → q.worker ≡ draining → q.games ≡ [] → (r : SyncQueue) × Drained q r
finished q w e = (
  record q { worker = waiting },
  record {
    settles =
        goes q (record q { worker = waiting }) (record q { worker = waiting }) (finds_none q w e)
          (done (record q { worker = waiting }));
    none_left = e;
    all_attempted = λ g h. only-attempted g q.games q.attempted e h;
  },
)

goes-Drained :
    (p q r : SyncQueue)
    → Quiet p q
    → ((g : String)
        → (is_queued g p || is_attempted g p) ≡ true
        → (is_queued g q || is_attempted g q) ≡ true)
    → Drained q r
    → Drained p r
goes-Drained p q r s k d = record {
  settles = goes p q r s d.settles;
  none_left = d.none_left;
  all_attempted = λ g h. d.all_attempted g (k g h);
}

is_queued-head :
    (x : String) (rest games : List String) → games ≡ x ∷ rest → any (λ h. h == x) games ≡ true
unfolding any
is_queued-head x rest games e = rw e (ground (arith, eq_refl x))

none_fit :
    (x : String) (rest games : List String) → games ≡ x ∷ rest → length games ≤ 0 → [] ≡ games
none_fit x rest games e le = absurd (ground (arith, rw e at le))

-- The inner loop ends after as many rounds as there are games.
drain :
    (n : ℕ) (q : SyncQueue)
    → q.worker ≡ draining
    → length q.games ≤ n
    → (r : SyncQueue) × Drained q r
drain zero q w le = elim (games-cases q.games) [
  | inl e ↦ finished q w e
  | inr (x, rest, e) ↦ finished q w (sym (none_fit x rest q.games e le))
]
drain (suc n) q w le = elim (games-cases q.games) [
  | inl e ↦ finished q w e
  | inr (x, rest, e) ↦
      let (r, d) = drain n (take_game x q) w (taken-le n x rest q.games e le) in
      (
        r,
        goes-Drained q (take_game x q) r (takes q x w (is_queued-head x rest q.games e))
            (λ g. taken-attempted g x rest q.games q.attempted e) d,
      )
]

drained : (q : SyncQueue) → q.worker ≡ draining → (r : SyncQueue) × Drained q r
drained q w = drain (length q.games) q w (omega arith)

received : (q : SyncQueue) → q.worker ≡ waiting → q.wake ≡ true → (r : SyncQueue) × Drained q r
received q w e =
    let (r, d) = drained (record q { wake = false; worker = draining }) refl in
    (
      r,
      goes-Drained q (record q { wake = false; worker = draining }) r (receives q w e) (λ g h. h) d,
    )

as_it_is : (q : SyncQueue) → q.games ≡ [] → (r : SyncQueue) × Drained q r
as_it_is q e = (
  q,
  record {
    settles = done q;
    none_left = e;
    all_attempted = λ g h. only-attempted g q.games q.attempted e h;
  },
)

waiting-Drained : (q : SyncQueue) → q.worker ≡ waiting → IsAwake q → (r : SyncQueue) × Drained q r
waiting-Drained q w (busy b) = drained q b
waiting-Drained q w (ended b) = absurd (ground (arith, w, b))
waiting-Drained q w (idle e) = as_it_is q e
waiting-Drained q w (woken e) = received q w e
waiting-Drained q w (called n e) =
    let (r, d) = received (send_wake q) w refl in
    (r, goes-Drained q (send_wake q) r (wakes q n e) (λ g h. h) d)

worker-cases : (w : Worker) → is_running w ≡ true → (w ≡ waiting) ⊎ (w ≡ draining)
worker-cases waiting h = inl refl
worker-cases draining h = inr refl
worker-cases stopped h = absurd (ground (arith, h))

each-All :
    (P : String → Type 0) (games : List String)
    → ((g : String) → any (λ h. h == g) games ≡ true → P g)
    → All P games
unfolding any
each-All P [] f = tt
each-All P (x ∷ rest) f =
    (f x (ground (arith, eq_refl x)), each-All P rest (λ g h. f g (ground (arith, h))))

or-left : (a b : Bool) → a ≡ true → (a || b) ≡ true
or-left a b h = ground (arith, h)

-- Its end, with every game of the queue attempted
claimed :
    (q r : SyncQueue)
    → Drained q r
    → Settles q r × (r.games ≡ []) × All (λ g. is_attempted g r ≡ true) q.games
claimed q r d = (
  d.settles,
  d.none_left,
  each-All (λ g. is_attempted g r ≡ true) q.games
      (λ g h. d.all_attempted g (or-left (is_queued g q) (is_attempted g q) h)),
)

running-Drained :
    (q : SyncQueue) → IsReachable q → is_running q.worker ≡ true → (r : SyncQueue) × Drained q r
running-Drained q h w = elim (worker-cases q.worker w) [
  | inl e ↦ waiting-Drained q e (reachable-IsAwake q h)
  | inr e ↦ drained q e
]

-- No wake-up is lost: from every state that additions of games, sends to the wake channel, ends of the
-- worker and its own steps lead to in any order, if the worker has not ended, then steps of it
-- and of the calls that are under way, with no game added, lead to a state with no game
-- queued, in which automaticSyncGame has been called for every game that was.
pub reachable-Settles :
    (q : SyncQueue)
    → IsReachable q
    → is_running q.worker ≡ true
    → (r : SyncQueue) × Settles q r × (r.games ≡ []) × All (λ g. is_attempted g r ≡ true) q.games
reachable-Settles q h w =
    let (r, d) = running-Drained q h w in let (s, e, a) = claimed q r d in (r, s, e, a)
