-- ===== src/Relay/Status.antt =====
-- `/status` of src/distllm/relay.py: the counts of tasks by status and by role, and of workers by role.
use distllm.Prelude.{
  ℕ, suc, ◌+◌, String, string_eq, [], ◌∷◌, Option, none, some, ◌==◌, ◌&&◌, eq_of_beq, sym, subst,
  ◌∙◌, inl, inr, ◌≡◌, refl, arith, if◌then◌else◌, Bool-cases,
}
use distllm.Dict
use distllm.Dict.{Dict, get-put}
use distllm.Relay.State.{Status, is_pending, Task, Node, RelayState}

-- the counts of tasks: PENDING, ASSIGNED, FORWARDED, COMPLETED, FAILED
pub record Counts : Type 0 where
  pub pending : ℕ
  pub assigned : ℕ
  pub forwarded : ℕ
  pub completed : ℕ
  pub failed : ℕ

abbrev pub no_tasks : Counts
no_tasks = record { pending = 0; assigned = 0; forwarded = 0; completed = 0; failed = 0 }

abbrev pub count_one : Status → Counts → Counts
count_one Status.pending c = record c { pending = suc c.pending }
count_one Status.assigned c = record c { assigned = suc c.assigned }
count_one Status.forwarded c = record c { forwarded = suc c.forwarded }
count_one Status.completed c = record c { completed = suc c.completed }
count_one Status.failed c = record c { failed = suc c.failed }

-- the entry of a role
pub record Role : Type 0 where
  pub workers : ℕ
  pub pending : ℕ

abbrev pub role_of : Option Role → Role
role_of none = record { workers = 0; pending = 0 }
role_of (some r) = r

abbrev pub Roles : Type 0
Roles = Dict String Role

-- `roles.setdefault(role, ...)["workers"] += 1`
unfoldable pub add_worker : String → Roles → Roles
add_worker role m =
    let r = role_of (Dict.get role m) in Dict.put role (record r { workers = suc r.workers }) m

unfoldable pub add_pending : String → Roles → Roles
add_pending role m =
    let r = role_of (Dict.get role m) in Dict.put role (record r { pending = suc r.pending }) m

unfoldable pub count_nodes : Dict String Node → Roles → Roles
count_nodes [] m = m
count_nodes ((id, node) ∷ rest) m = count_nodes rest (add_worker node.role m)

unfoldable pub count_tasks : Dict String Task → Counts → Roles → Counts × Roles
count_tasks [] c m = (c, m)
count_tasks ((id, t) ∷ rest) c m =
    count_tasks rest (count_one t.status c)
      (if is_pending t.status then add_pending t.target_role m else m)

-- The counts of the reply, and its roles before they are sorted.
unfoldable pub status : RelayState → Counts × Roles
unfolding count_nodes count_tasks
status s = count_tasks s.tasks no_tasks (count_nodes s.nodes [])

-- an independent count
abbrev pub pending_for : String → Dict String Task → ℕ
pending_for role [] = 0
pending_for role ((id, t) ∷ rest) =
    (if is_pending t.status && t.target_role == role then 1 else 0) + pending_for role rest

abbrev of_status : Status → ℕ → Task → ℕ
of_status Status.pending n t = elim t.status [ Status.pending ↦ suc n | _ ↦ n ]
of_status Status.assigned n t = elim t.status [ Status.assigned ↦ suc n | _ ↦ n ]
of_status Status.forwarded n t = elim t.status [ Status.forwarded ↦ suc n | _ ↦ n ]
of_status Status.completed n t = elim t.status [ Status.completed ↦ suc n | _ ↦ n ]
of_status Status.failed n t = elim t.status [ Status.failed ↦ suc n | _ ↦ n ]

-- the number of tasks in a status
abbrev pub in_status : Status → Dict String Task → ℕ
in_status st [] = 0
in_status st ((id, t) ∷ rest) = of_status st (in_status st rest) t

abbrev pub workers_for : String → Dict String Node → ℕ
workers_for role [] = 0
workers_for role ((id, node) ∷ rest) = (if node.role == role then 1 else 0) + workers_for role rest

-- the count of a status
abbrev pub count_of : Status → Counts → ℕ
count_of Status.pending c = c.pending
count_of Status.assigned c = c.assigned
count_of Status.forwarded c = c.forwarded
count_of Status.completed c = c.completed
count_of Status.failed c = c.failed

-- one more task counts for its own status and for no other
count_of-one :
    (st : Status) (n : ℕ) (t : Task) (c : Counts)
    → n + count_of st (count_one t.status c) ≡ of_status st n t + count_of st c
count_of-one st n t c = one st t.status
  where
    one :
        (st x : Status)
        → n + count_of st (count_one x c) ≡ of_status st n (record t { status = x }) + count_of st c
    one Status.pending Status.pending = omega arith
    one Status.pending Status.assigned = omega arith
    one Status.pending Status.forwarded = omega arith
    one Status.pending Status.completed = omega arith
    one Status.pending Status.failed = omega arith
    one Status.assigned Status.pending = omega arith
    one Status.assigned Status.assigned = omega arith
    one Status.assigned Status.forwarded = omega arith
    one Status.assigned Status.completed = omega arith
    one Status.assigned Status.failed = omega arith
    one Status.forwarded Status.pending = omega arith
    one Status.forwarded Status.assigned = omega arith
    one Status.forwarded Status.forwarded = omega arith
    one Status.forwarded Status.completed = omega arith
    one Status.forwarded Status.failed = omega arith
    one Status.completed Status.pending = omega arith
    one Status.completed Status.assigned = omega arith
    one Status.completed Status.forwarded = omega arith
    one Status.completed Status.completed = omega arith
    one Status.completed Status.failed = omega arith
    one Status.failed Status.pending = omega arith
    one Status.failed Status.assigned = omega arith
    one Status.failed Status.forwarded = omega arith
    one Status.failed Status.completed = omega arith
    one Status.failed Status.failed = omega arith

abbrev workers_in : String → Roles → ℕ
workers_in r m = (role_of (Dict.get r m)).workers

abbrev pending_in : String → Roles → ℕ
pending_in r m = (role_of (Dict.get r m)).pending

role-add_worker :
    (r role : String) (m : Roles)
    → (workers_in r (add_worker role m) ≡ (if role == r then 1 else 0) + workers_in r m)
      × (pending_in r (add_worker role m) ≡ pending_in r m)
unfolding add_worker
role-add_worker r role m =
    let x = role_of (Dict.get role m) in
    subst
      (λ o.
        ((role_of o).workers ≡ (if role == r then 1 else 0) + workers_in r m)
        × ((role_of o).pending ≡ pending_in r m))
      (sym (get-put role r (record x { workers = suc x.workers }) m))
      (elim (Bool-cases (role == r)) [
        | inl same ↦ rw (same, eq_of_beq role r same) (omega arith, refl)
        | inr other ↦ rw other (omega arith, refl)
      ])

role-add_pending :
    (r role : String) (m : Roles)
    → (pending_in r (add_pending role m) ≡ (if role == r then 1 else 0) + pending_in r m)
      × (workers_in r (add_pending role m) ≡ workers_in r m)
unfolding add_pending
role-add_pending r role m =
    let x = role_of (Dict.get role m) in
    subst
      (λ o.
        ((role_of o).pending ≡ (if role == r then 1 else 0) + pending_in r m)
        × ((role_of o).workers ≡ workers_in r m))
      (sym (get-put role r (record x { pending = suc x.pending }) m))
      (elim (Bool-cases (role == r)) [
        | inl same ↦ rw (same, eq_of_beq role r same) (omega arith, refl)
        | inr other ↦ rw other (omega arith, refl)
      ])

role-count_nodes :
    (r : String) (ns : Dict String Node) (m : Roles)
    → (workers_in r (count_nodes ns m) ≡ workers_for r ns + workers_in r m)
      × (pending_in r (count_nodes ns m) ≡ pending_in r m)
unfolding count_nodes
role-count_nodes r [] m = (omega arith, refl)
role-count_nodes r ((id, node) ∷ ns) m =
    let (w, p) = role-count_nodes r ns (add_worker node.role m) in
    let (w', p') = role-add_worker r node.role m in (omega (arith, w, w'), p ∙ p')

role-one :
    (r : String) (t : Task) (m : Roles)
    → let m' = if is_pending t.status then add_pending t.target_role m else m in
      (pending_in r m'
        ≡ (if is_pending t.status && t.target_role == r then 1 else 0) + pending_in r m)
      × (workers_in r m' ≡ workers_in r m)
role-one r t m = elim (Bool-cases (is_pending t.status)) [
  | inl queued ↦ rw queued (role-add_pending r t.target_role m)
  | inr other ↦ rw other (omega arith, refl)
]

role-count_tasks :
    (r : String) (ts : Dict String Task) (c : Counts) (m : Roles)
    → ((st : Status) → count_of st (count_tasks ts c m).0 ≡ in_status st ts + count_of st c)
      × (pending_in r (count_tasks ts c m).1 ≡ pending_for r ts + pending_in r m)
      × (workers_in r (count_tasks ts c m).1 ≡ workers_in r m)
unfolding count_tasks
role-count_tasks r [] c m = ((λ st. omega arith), omega arith, refl)
role-count_tasks r ((id, t) ∷ ts) c m =
    let (n, p, w) =
      role-count_tasks r ts (count_one t.status c)
        (if is_pending t.status then add_pending t.target_role m else m) in
    let (p', w') = role-one r t m in
    ((λ st. n st ∙ count_of-one st (in_status st ts) t c), omega (arith, p, p'), w ∙ w')

-- `/status` counts for each status the tasks that are in it, and for every role its registered workers
-- and its pending tasks.
pub status-counts :
    (s : RelayState) (r : String)
    → ((st : Status) → count_of st (status s).0 ≡ in_status st s.tasks)
      × ((role_of (Dict.get r (status s).1)).pending ≡ pending_for r s.tasks)
      × ((role_of (Dict.get r (status s).1)).workers ≡ workers_for r s.nodes)
unfolding status Dict.get
status-counts s r =
    let (n, p, w) = role-count_tasks r s.tasks no_tasks (count_nodes s.nodes []) in
    let (w', p') = role-count_nodes r s.nodes [] in
    ((λ st. n st ∙ none_before st), omega (arith, p, p'), omega (arith, w, w'))
  where
    none_before : (st : Status) → in_status st s.tasks + count_of st no_tasks ≡ in_status st s.tasks
    none_before Status.pending = omega arith
    none_before Status.assigned = omega arith
    none_before Status.forwarded = omega arith
    none_before Status.completed = omega arith
    none_before Status.failed = omega arith
