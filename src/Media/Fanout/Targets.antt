-- ===== src/Media/Fanout/Targets.antt =====
-- The loops of a rebuild: the row of a publisher holds the members of this shard that want it, in order, and
-- a bit of its demand mask tells whether some member of a shard wants it.
use wroom.Common.{
  ℕ, ◌<◌, ◌≡◌, refl, sym, ap, ◌∙◌, arith, false, ◌&&◌, List, [], ◌∷◌, ◌++◌, if◌then◌else◌, nat_eq,
  list_eq, All,
}
use wroom.Common.Bytes.{Bytes}
use wroom.Common.Maps.{Map, values}
use wroom.Common.Sets.{contains, HasNoRepeats}
use wroom.Common.Results.{ok}
use wroom.Media.Messages.{TransportKey}
use wroom.Media.Fanout.{
  RoomShard, Tables, Target, visit, visit_publishers, visit_targets, target_of,
}
use wroom.Media.Fanout.Rows.{
  Which, row, rows_of, placed, Sized, Visited, one, append-nil, visit-Visits, marked_demand,
}

append_assoc : (ks bs cs : List TransportKey) → (ks ++ bs) ++ cs ≡ ks ++ (bs ++ cs)
append_assoc [] bs cs = refl
append_assoc (k ∷ ks) bs cs = ap (λ (rest : List TransportKey). k ∷ rest) (append_assoc ks bs cs)

abbrev each : Target → List ℕ → Which → ℕ → List TransportKey
each t ps k p = if contains p ps && placed k t p then t.key ∷ [] else []

each-cons :
    (t : Target) (i : ℕ) (ps : List ℕ) (k : Which) (p : ℕ)
    → contains i ps ≡ false
    → one t i k p ++ each t ps k p ≡ each t (i ∷ ps) k p
unfolding contains
each-cons t i ps k p fresh = ground (arith, nat_eq.decides i p, fresh)

Visited-nil : (f : Tables) → Visited (λ k p. []) f f
Visited-nil f k = (refl, λ p. sym (append-nil (row (rows_of k f) p)))

Visited-append :
    (added more : Which → ℕ → List TransportKey) (f g h : Tables)
    → Visited added f g
    → Visited more g h
    → Visited (λ k p. added k p ++ more k p) f h
Visited-append added more f g h fg gh k = (
  (gh k).0 ∙ (fg k).0,
  λ p.
      (gh k).1 p
      ∙ ap (λ (ks : List TransportKey). ks ++ more k p) ((fg k).1 p)
      ∙ append_assoc (row (rows_of k f) p) (added k p) (more k p),
)

abbrev pub demand_after : Target → List ℕ → Map ℕ (ℕ × ℕ) → Map ℕ (ℕ × ℕ)
demand_after t [] d = d
demand_after t (p ∷ ps) d = demand_after t ps (marked_demand t p d)

abbrev Publishes : Target → List ℕ → Tables → Type 0
Publishes t ps f =
    (after : Tables) × (visit_publishers t ps f ≡ ok after)
    × (after.demand ≡ demand_after t ps f.demand)
    × Visited (each t ps) f after

publishers_next :
    (t : Target) (p : ℕ) (ps : List ℕ) (f g : Tables)
    → visit t f p ≡ ok g
    → visit_publishers t (p ∷ ps) f ≡ visit_publishers t ps g
unfolding visit_publishers
publishers_next t p ps f g e = rw e refl

visit_publishers-Publishes :
    (n : ℕ) (t : Target) (ps : List ℕ) (f : Tables)
    → Sized n f
    → HasNoRepeats ps
    → All (λ p. p < n) ps
    → Publishes t ps f
unfolding visit_publishers contains
visit_publishers-Publishes n t [] f sized fresh below = (f, refl, refl, Visited-nil f)
visit_publishers-Publishes n t (p ∷ ps) f sized fresh below =
    let (g, e, d, fg) = visit-Visits t p n f sized below.0 in
    let (h, e', d', gh) =
      visit_publishers-Publishes n t ps g (λ k. (fg k).0 ∙ sized k) fresh.1 below.1 in
    (
      h,
      publishers_next t p ps f g e ∙ e',
      d' ∙ ap (demand_after t ps) d,
      λ k. (
        (gh k).0 ∙ (fg k).0,
        λ q.
            (Visited-append (one t p) (each t ps) f g h fg gh k).1 q
            ∙ ap (λ (ks : List TransportKey). row (rows_of k f) q ++ ks)
                (each-cons t p ps k q fresh.0),
      ),
    )

module _ (n : ℕ) (s : RoomShard) where
  -- The members of this shard with a place in the row of `p`, in order.
  abbrev pub placed_in : Map Bytes ℕ → Which → ℕ → List TransportKey
  placed_in [] k p = []
  placed_in ((name, pid) ∷ targets) k p =
      each (target_of n s name pid) (values s.pids) k p ++ placed_in targets k p

  abbrev pub demand_of_targets : Map Bytes ℕ → Map ℕ (ℕ × ℕ) → Map ℕ (ℕ × ℕ)
  demand_of_targets [] d = d
  demand_of_targets ((name, pid) ∷ targets) d =
      demand_of_targets targets (demand_after (target_of n s name pid) (values s.pids) d)

  abbrev pub Builds : Map Bytes ℕ → Tables → Type 0
  Builds targets f =
      (after : Tables) × (visit_targets n s targets f ≡ ok after)
      × (after.demand ≡ demand_of_targets targets f.demand)
      × Visited (placed_in targets) f after

  targets_next :
      (name : Bytes) (pid : ℕ) (targets : Map Bytes ℕ) (f g : Tables)
      → visit_publishers (target_of n s name pid) (values s.pids) f ≡ ok g
      → visit_targets n s ((name, pid) ∷ targets) f ≡ visit_targets n s targets g
  unfolding visit_targets
  targets_next name pid targets f g e = rw e refl

  pub visit_targets-Builds :
      (m : ℕ) (targets : Map Bytes ℕ) (f : Tables)
      → Sized m f
      → HasNoRepeats (values s.pids)
      → All (λ p. p < m) (values s.pids)
      → Builds targets f
  unfolding visit_targets
  visit_targets-Builds m [] f sized fresh below = (f, refl, refl, Visited-nil f)
  visit_targets-Builds m ((name, pid) ∷ targets) f sized fresh below =
      let t = target_of n s name pid in
      let (g, e, d, fg) = visit_publishers-Publishes m t (values s.pids) f sized fresh below in
      let (h, e', d', gh) =
        visit_targets-Builds m targets g (λ k. (fg k).0 ∙ sized k) fresh below in
      (
        h,
        targets_next name pid targets f g e ∙ e',
        d' ∙ ap (demand_of_targets targets) d,
        Visited-append (each t (values s.pids)) (placed_in targets) f g h fg gh,
      )
