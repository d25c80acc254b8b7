-- ===== src/Media/Fanout/Rows.antt =====
-- What a rebuild leaves in the fan-out rows: for a publisher, the local members that want it.
use wroom.Common.{
  ℕ, zero, suc, ◌<◌, ◌≡◌, refl, ap, ◌∙◌, ◌⊎◌, arith, Bool, true, false, ◌||◌, ◌&&◌, not, List, [],
  ◌∷◌, ◌++◌, length, set, get_or, length-set, if◌then◌else◌, Bool-cases, inl, inr, ◌==◌, nat_eq,
  list_eq,
}
use wroom.Common.Maps.{Map}
use wroom.Common.Results.{ok}
use wroom.Media.Messages.{TransportKey}
use wroom.Common.Maps.{Map, insert}
use wroom.Media.Fanout.{
  mark_if, demand_of, Rows, Tables, Target, push_at, push_if, push_target, mark_demand, visit,
  wants_video, wants_audio,
}

abbrev pub row : Rows → ℕ → List TransportKey
row rows p = get_or rows p []

row-set :
    (i p : ℕ) (keys : List TransportKey) (rows : Rows)
    → i < length rows
    → row (set rows i keys) p ≡ (if i == p then keys else row rows p)
row-set i p keys [] h = absurd (omega (arith, h))
row-set zero zero keys (r ∷ rows) h = ground arith
row-set zero (suc p) keys (r ∷ rows) h = ground arith
row-set (suc i) zero keys (r ∷ rows) h = ground arith
row-set (suc i) (suc p) keys (r ∷ rows) h = ground (arith, row-set i p keys rows (omega (arith, h)))

pub append-nil : (keys : List TransportKey) → keys ++ [] ≡ keys
append-nil [] = refl
append-nil (k ∷ keys) = ap (λ (ks : List TransportKey). k ∷ ks) (append-nil keys)

-- The rows are as many as before, and one has one key more, if so.
abbrev Pushed : Bool → ℕ → TransportKey → Rows → Rows → Type 0
Pushed b i key rows after =
    (length after ≡ length rows)
    × ((p : ℕ) → row after p ≡ row rows p ++ (if (i == p) && b then key ∷ [] else []))

push_at-Pushed :
    (i : ℕ) (key : TransportKey) (rows : Rows)
    → i < length rows
    → (after : Rows) × (push_at i key rows ≡ ok after) × Pushed true i key rows after
unfolding push_at
push_at-Pushed i key rows h = (
  set rows i (get_or rows i [] ++ (key ∷ [])),
  ground (arith, h),
  (
    length-set rows i (get_or rows i [] ++ (key ∷ [])),
    λ p.
        ground
          (arith, row-set i p (get_or rows i [] ++ (key ∷ [])) rows h, append-nil (row rows p)),
  ),
)

push_if-Pushed :
    (b : Bool) (i : ℕ) (key : TransportKey) (rows : Rows)
    → i < length rows
    → (after : Rows) × (push_if b i key rows ≡ ok after) × Pushed b i key rows after
unfolding push_if
push_if-Pushed true i key rows h = push_at-Pushed i key rows h
push_if-Pushed false i key rows h =
    (rows, refl, (refl, λ p. ground (arith, append-nil (row rows p))))

-- The three tables of rows.
pub data Which : Type 0 where
  video_rows audio_rows any_rows : Which

abbrev pub rows_of : Which → Tables → Rows
rows_of video_rows f = f.v
rows_of audio_rows f = f.a
rows_of any_rows f = f.any

-- Whether a target has a place in a row.
abbrev pub wanted : Which → Target → ℕ → Bool
wanted video_rows t p = wants_video t p
wanted audio_rows t p = wants_audio t p
wanted any_rows t p = wants_video t p || wants_audio t p

-- Which rows `push_target` extends.
abbrev pushes : Which → Target → ℕ → Bool
pushes video_rows t p = wants_video t p
pushes audio_rows t p = wants_audio t p
pushes any_rows t p = true

abbrev pub placed : Which → Target → ℕ → Bool
placed k t p = not (p == t.pid) && (t.local && wanted k t p)

abbrev pub Sized : ℕ → Tables → Type 0
Sized n f = (k : Which) → length (rows_of k f) ≡ n

-- From `f` to `after`: as many rows, and in the row of `p` the keys of the target where it is placed.
abbrev pub Visited : (Which → ℕ → List TransportKey) → Tables → Tables → Type 0
Visited added f after =
    (k : Which)
    → (length (rows_of k after) ≡ length (rows_of k f))
      × ((p : ℕ) → row (rows_of k after) p ≡ row (rows_of k f) p ++ added k p)

abbrev pub one : Target → ℕ → Which → ℕ → List TransportKey
one t i k p = if (i == p) && placed k t i then t.key ∷ [] else []

push_target-Visited :
    (n : ℕ) (t : Target) (p : ℕ) (f : Tables)
    → Sized n f
    → p < n
    → (after : Tables) × (push_target t p (wants_video t p) (wants_audio t p) f ≡ ok after)
      × (after.demand ≡ f.demand)
      × ((k : Which) → Pushed (pushes k t p) p t.key (rows_of k f) (rows_of k after))
unfolding push_target
push_target-Visited n t p f sized h =
    let (v, ev, pv) =
      push_if-Pushed (wants_video t p) p t.key f.v (omega (arith, h, sized video_rows)) in
    let (a, ea, pa) =
      push_if-Pushed (wants_audio t p) p t.key f.a (omega (arith, h, sized audio_rows)) in
    let (any, eany, pany) = push_at-Pushed p t.key f.any (omega (arith, h, sized any_rows)) in
    let after : Tables = record f { v = v; a = a; any = any } in
    (
      after,
      rw (ev, ea, eany) refl,
      refl,
      λ k. elim k as (λ k. Pushed (pushes k t p) p t.key (rows_of k f) (rows_of k after)) [
        | video_rows ↦ pv
        | audio_rows ↦ pa
        | any_rows ↦ pany
      ],
    )

abbrev pub passes_over : Target → ℕ → Bool
passes_over t p = (p == t.pid) || not (wants_video t p || wants_audio t p)

module _ (t : Target) (p : ℕ) where
  not_placed : (k : Which) → (passes_over t p ≡ true) ⊎ (t.local ≡ false) → placed k t p ≡ false
  not_placed video_rows (inl over) = ground (arith, over)
  not_placed audio_rows (inl over) = ground (arith, over)
  not_placed any_rows (inl over) = ground (arith, over)
  not_placed k (inr far) = ground (arith, far)

  placed-eq-pushes :
      (k : Which) → passes_over t p ≡ false → t.local ≡ true → placed k t p ≡ pushes k t p
  placed-eq-pushes video_rows here near = ground (arith, here, near)
  placed-eq-pushes audio_rows here near = ground (arith, here, near)
  placed-eq-pushes any_rows here near = ground (arith, here, near)

  -- Where nothing is placed the rows stay.
  unplaced-Visited :
      (f after : Tables)
      → ((k : Which) → rows_of k after ≡ rows_of k f)
      → (passes_over t p ≡ true) ⊎ (t.local ≡ false)
      → Visited (one t p) f after
  unplaced-Visited f after same why k = (
    ap length (same k),
    λ q. ground (
      arith,
      ap (λ (rows : Rows). row rows q) (same k),
      append-nil (row (rows_of k f) q),
      not_placed k why,
    ),
  )

  visit_skips : (f : Tables) → passes_over t p ≡ true → visit t f p ≡ ok f
  unfolding visit
  visit_skips f over = rw over refl

  abbrev pub marked : Tables → Tables
  marked f = mark_demand t p (wants_video t p) (wants_audio t p) f

  marked_rows : (f : Tables) (k : Which) → rows_of k (marked f) ≡ rows_of k f
  unfolding mark_demand
  marked_rows f video_rows = refl
  marked_rows f audio_rows = refl
  marked_rows f any_rows = refl

  visit_marks :
      (f : Tables) → passes_over t p ≡ false → t.local ≡ false → visit t f p ≡ ok (marked f)
  unfolding visit
  visit_marks f here far = rw (here, far) refl

  visit_pushes :
      (f : Tables)
      → passes_over t p ≡ false
      → t.local ≡ true
      → visit t f p ≡ push_target t p (wants_video t p) (wants_audio t p) (marked f)
  unfolding visit
  visit_pushes f here near = rw (here, near) refl

  -- The demand that a visit leaves.
  abbrev pub marked_demand : Map ℕ (ℕ × ℕ) → Map ℕ (ℕ × ℕ)
  marked_demand d =
      if passes_over t p
      then d
      else insert p
          (
            mark_if (wants_video t p) t.shard (demand_of p d).0,
            mark_if (wants_audio t p) t.shard (demand_of p d).1,
          )
          d

  marked-demand :
      (f : Tables) → passes_over t p ≡ false → (marked f).demand ≡ marked_demand f.demand
  unfolding mark_demand
  marked-demand f here = rw here refl

  -- What one visit does: to the rows, and to the demand.
  abbrev pub Visits : Tables → Type 0
  Visits f =
      (after : Tables) × (visit t f p ≡ ok after)
      × (after.demand ≡ marked_demand f.demand)
      × Visited (one t p) f after

  pub visit-Visits : (n : ℕ) (f : Tables) → Sized n f → p < n → Visits f
  visit-Visits n f sized h = elim (Bool-cases (passes_over t p)) [
    | inl over ↦
        (f, visit_skips f over, ground (arith, over), unplaced-Visited f f (λ k. refl) (inl over))
    | inr here ↦ elim (Bool-cases t.local) [
      | inr far ↦ (
        marked f,
        visit_marks f here far,
        marked-demand f here,
        unplaced-Visited f (marked f) (marked_rows f) (inr far),
      )
      | inl near ↦
          let (after, e, same, pushed) =
            push_target-Visited n t p (marked f) (λ k. ap length (marked_rows f k) ∙ sized k) h in
          (
            after,
            visit_pushes f here near ∙ e,
            same ∙ marked-demand f here,
            λ k. (
              (pushed k).0 ∙ ap length (marked_rows f k),
              λ q. ground (
                arith,
                (pushed k).1 q,
                ap (λ (rows : Rows). row rows q) (marked_rows f k),
                placed-eq-pushes k here near,
              ),
            ),
          )
    ]
  ]
