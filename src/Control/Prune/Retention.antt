-- ===== src/Control/Prune/Retention.antt =====
-- src/ctx_weft/core/control/reducers.py, `prune_view_for_snapshot`: what recovery still finds.
use ctx_weft.Base.{
  String, ◌≡◌, refl, ap, ◌∙◌, inl, inr, none, some, Bool, true, false, List, [], ◌∷◌, arith, ◌==◌,
  eq_iff, mem, mem-update, mem-add, mem-append, mem-difference, Bool-cases, Option-cases,
  if◌then◌else◌,
}
use ctx_weft.Base.Dict.{Dict, lookup, insert, lookup-insert}
use ctx_weft.Control.Views.{RunStateView, TaskView}
use ctx_weft.Control.Prune.{
  ids_where, is_live, live_ids, has_live_parent, base_ids, keep_full, deps_of, dep_ids, restrict,
  slim, add_deps, prune_view_for_snapshot,
}

lookup-restrict :
    (ids : List String) (m : Dict TaskView) (id : String)
    → lookup id (restrict ids m) ≡ (if mem id ids then lookup id m else none)
unfolding lookup restrict
lookup-restrict ids [] id = ground arith
lookup-restrict ids ((k, t) ∷ m) id = ground (arith, lookup-restrict ids m id, eq_iff k id)

lookup-add_deps_other :
    (deps : List String) (tasks kept : Dict TaskView) (id : String)
    → mem id deps ≡ false
    → lookup id (add_deps deps tasks kept) ≡ lookup id kept
unfolding add_deps mem
lookup-add_deps_other [] tasks kept id out = refl
lookup-add_deps_other (d ∷ deps) tasks kept id out =
    let further = λ (k : Dict TaskView). lookup-add_deps_other deps tasks k id in
    elim (Bool-cases (d == id)) [
      | inl here ↦ let no : true ≡ false = (rw here at out) in cc
      | inr apart ↦
          let rest : mem id deps ≡ false = (rw apart at out) in
          elim (Option-cases (lookup d tasks)) [
            | inl absent ↦ rw (add_deps, absent) (further kept rest)
            | inr (t, found) ↦
                rw (add_deps, found)
                  (further (insert d (slim t) kept) rest
                    ∙ rw (lookup-insert d id (slim t) kept, apart) refl)
          ]
    ]

ids_where-mem :
    (p : TaskView → Bool) (m : Dict TaskView) (id : String) (t : TaskView)
    → lookup id m ≡ some t
    → p t ≡ true
    → mem id (ids_where p m) ≡ true
unfolding lookup ids_where
ids_where-mem p [] id t h good = cc
ids_where-mem p ((k, u) ∷ m) id t h good = elim (Bool-cases (k == id)) [
  | inl here ↦
      let same : some u ≡ some t = (rw here at h) in
      let value : u ≡ t = cc in
      let fits : p u ≡ true = ap p value ∙ good in
      rw (fits, mem-add id k (ids_where p m), here) refl
  | inr apart ↦
      let further = ids_where-mem p m id t (rw apart at h) good in
      elim (Bool-cases (p u)) [
        | inl fits ↦ rw (fits, mem-add id k (ids_where p m), apart) further
        | inr not_this ↦ rw not_this further
      ]
]

-- Under a dependency that is there stands its slim entry.
lookup-add_deps :
    (deps : List String) (tasks kept : Dict TaskView) (id : String) (t : TaskView)
    → mem id deps ≡ true
    → lookup id tasks ≡ some t
    → lookup id (add_deps deps tasks kept) ≡ some (slim t)
unfolding add_deps mem
lookup-add_deps [] tasks kept id t there found = cc
lookup-add_deps (d ∷ deps) tasks kept id t there found = elim (Bool-cases (mem id deps)) [
  | inl again ↦ elim (Option-cases (lookup d tasks)) [
    | inl absent ↦ rw (add_deps, absent) (lookup-add_deps deps tasks kept id t again found)
    | inr (u, other) ↦
        rw (add_deps, other) (lookup-add_deps deps tasks (insert d (slim u) kept) id t again found)
  ]
  | inr last ↦
      let here : (d == id) ≡ true = ground (arith, there, last) in
      let same = (eq_iff d id).0 here in
      let at_d : lookup d tasks ≡ some t = ap (λ x. lookup x tasks) same ∙ found in
      rw (add_deps, at_d)
        (lookup-add_deps_other deps tasks (insert d (slim t) kept) id last
          ∙ rw (lookup-insert d id (slim t) kept, here) refl)
]

-- What stands under a key after the pruning: the whole entry of a task that is kept, the slim one of a
-- dependency, and nothing else.
lookup-prune_kept :
    (v : RunStateView) (id : String)
    → mem id (keep_full v) ≡ true
    → lookup id (prune_view_for_snapshot v).tasks ≡ lookup id v.tasks
unfolding prune_view_for_snapshot dep_ids
lookup-prune_kept v id kept =
    lookup-add_deps_other (dep_ids v) v.tasks (restrict (keep_full v) v.tasks) id (
      rw (mem-difference id (deps_of (live_ids v.tasks) v.tasks) (keep_full v), kept)
        (ground arith))
    ∙ lookup-restrict (keep_full v) v.tasks id
    ∙ rw kept refl

lookup-prune_dep :
    (v : RunStateView) (id : String) (t : TaskView)
    → mem id (keep_full v) ≡ false
    → mem id (deps_of (live_ids v.tasks) v.tasks) ≡ true
    → lookup id v.tasks ≡ some t
    → lookup id (prune_view_for_snapshot v).tasks ≡ some (slim t)
unfolding prune_view_for_snapshot dep_ids
lookup-prune_dep v id t out dep found =
    lookup-add_deps (dep_ids v) v.tasks (restrict (keep_full v) v.tasks) id t
      (rw (mem-difference id (deps_of (live_ids v.tasks) v.tasks) (keep_full v), dep, out) refl)
      found

base-kept :
    (v : RunStateView) (id : String) → mem id (base_ids v) ≡ true → mem id (keep_full v) ≡ true
unfolding keep_full
base-kept v id h = rw (mem-update id (base_ids v) _, h) refl

live-mem :
    (v : RunStateView) (id : String) (t : TaskView)
    → lookup id v.tasks ≡ some t
    → is_live t ≡ true
    → mem id (live_ids v.tasks) ≡ true
unfolding live_ids
live-mem v id t found live = ids_where-mem is_live v.tasks id t found live

-- The first two of the five unions.
base_of_live :
    (v : RunStateView) (id : String) → mem id (live_ids v.tasks) ≡ true → mem id (base_ids v) ≡ true
unfolding base_ids
base_of_live v id h =
    rw
      (
        mem-update id _ _,
        mem-update id _ _,
        mem-update id _ _,
        mem-update id (live_ids v.tasks) _,
        h,
      )
      refl

base_of_child :
    (v : RunStateView) (id : String)
    → mem id (ids_where (has_live_parent (live_ids v.tasks)) v.tasks) ≡ true
    → mem id (base_ids v) ≡ true
unfolding base_ids
base_of_child v id h =
    rw
      (
        mem-update id _ _,
        mem-update id _ _,
        mem-update id _ _,
        mem-update id (live_ids v.tasks) _,
        h,
      )
      (ground arith)

mem-deps_of :
    (ids : List String) (tasks : Dict TaskView) (id dep : String) (t : TaskView)
    → mem id ids ≡ true
    → lookup id tasks ≡ some t
    → mem dep t.dag_deps ≡ true
    → mem dep (deps_of ids tasks) ≡ true
unfolding deps_of mem
mem-deps_of [] tasks id dep t there found dependent = cc
mem-deps_of (k ∷ ids) tasks id dep t there found dependent = elim (Bool-cases (k == id)) [
  | inl here ↦
      let at_k : lookup k tasks ≡ some t =
        ap (λ x. lookup x tasks) ((eq_iff k id).0 here) ∙ found in
      rw (deps_of, at_k) (mem-append dep t.dag_deps (deps_of ids tasks) ∙ rw dependent refl)
  | inr apart ↦
      let further = mem-deps_of ids tasks id dep t (rw apart at there) found dependent in
      elim (Option-cases (lookup k tasks)) [
        | inl absent ↦ rw (deps_of, absent) further
        | inr (u, other) ↦
            rw (deps_of, other)
              (mem-append dep u.dag_deps (deps_of ids tasks) ∙ rw further (ground arith))
      ]
]

-- What a snapshot keeps for a task that is not in a terminal state: the task itself and each of its
-- children, terminal or not, with every field, and the status of each task that it depends on.
pub prune_view_for_snapshot-retains :
    (v : RunStateView) (id : String) (t : TaskView)
    → lookup id v.tasks ≡ some t
    → is_live t ≡ true
    → (id == "") ≡ false
    → (lookup id (prune_view_for_snapshot v).tasks ≡ some t)
      × ((child_id : String) (child : TaskView)
          → lookup child_id v.tasks ≡ some child
          → child.parent_task_id ≡ id
          → lookup child_id (prune_view_for_snapshot v).tasks ≡ some child)
      × ((dep_id : String) (dep : TaskView)
          → mem dep_id t.dag_deps ≡ true
          → lookup dep_id v.tasks ≡ some dep
          → (e : TaskView) × (lookup dep_id (prune_view_for_snapshot v).tasks ≡ some e)
            × (e.status ≡ dep.status))
prune_view_for_snapshot-retains v id t found live named =
    let alive = live-mem v id t found live in
    (
      lookup-prune_kept v id (base-kept v id (base_of_live v id alive)) ∙ found,
      λ child_id child there below.
          lookup-prune_kept v child_id (
            base-kept v child_id (
              base_of_child v child_id (
                ids_where-mem (has_live_parent (live_ids v.tasks)) v.tasks child_id child there
                  (rw (below, named, alive) refl))))
          ∙ there,
      λ dep_id dep needed there. elim (Bool-cases (mem dep_id (keep_full v))) [
        | inl kept ↦ (dep, lookup-prune_kept v dep_id kept ∙ there, refl)
        | inr out ↦ (
          slim dep,
          lookup-prune_dep v dep_id dep out
              (mem-deps_of (live_ids v.tasks) v.tasks id dep_id t alive found needed) there,
          refl,
        )
      ],
    )
