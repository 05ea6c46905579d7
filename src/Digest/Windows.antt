-- ===== src/Digest/Windows.antt =====
-- digest.py, _collect_tasks: the windows of consecutive digests.
use mcp_dispatch.Base.{
  ℕ, ◌+◌, ◌≤◌, String, Bool, Option, none, some, List, [], ◌∷◌, ◌++◌, length, select, length-append,
  select-append, leb, ◌≡◌, refl, arith,
}
use mcp_dispatch.Base.Sort.{sort_by, length-select-sort_with}
use mcp_dispatch.Tasks.{Task, Store}
use mcp_dispatch.Digest.Events.{TaskEvent, transitions, scan_tasks, collect_tasks}
use mcp_dispatch.Digest.Fields.{in_window}

-- How many events pass a question.
abbrev pub count_of : (TaskEvent → Bool) → List TaskEvent → ℕ
count_of q events = length (select q events)

abbrev within : ℕ → ℕ → List TaskEvent → List TaskEvent
within since now = select (λ (e : TaskEvent). in_window e.at since now)

within-join :
    (q : TaskEvent → Bool) (a b c : ℕ) (events : List TaskEvent)
    → a ≤ b
    → b ≤ c
    → count_of q (within a c events)
      ≡ count_of q (within a b events) + count_of q (within b c events)
within-join q a b c [] h k = refl
within-join q a b c (e ∷ events) h k = ground (arith, h, k, within-join q a b c events h k)

count_of-append :
    (q : TaskEvent → Bool) (xs ys : List TaskEvent)
    → count_of q (xs ++ ys) ≡ count_of q xs + count_of q ys
count_of-append q xs ys = rw select-append (length-append (select q xs) (select q ys))

scan_tasks-join :
    (q : TaskEvent → Bool) (nick : String) (channels : List String) (a b c : ℕ)
    (files : List (String × Option Task))
    → a ≤ b
    → b ≤ c
    → count_of q (scan_tasks nick channels a c files).0
      ≡ count_of q (scan_tasks nick channels a b files).0
        + count_of q (scan_tasks nick channels b c files).0
unfolding scan_tasks
scan_tasks-join q nick channels a b c [] h k = refl
scan_tasks-join q nick channels a b c ((stem, none) ∷ files) h k =
    scan_tasks-join q nick channels a b c files h k
scan_tasks-join q nick channels a b c ((stem, some task) ∷ files) h k =
    let events = transitions nick channels stem task in
    let split =
      λ (x y : ℕ). count_of-append q (within x y events) (scan_tasks nick channels x y files).0 in
    omega (
      arith,
      split a c,
      split a b,
      split b c,
      within-join q a b c events h k,
      scan_tasks-join q nick channels a b c files h k,
    )

-- Digests of consecutive windows show each transition of a task once: what the digest from `a` to
-- `c` lists that answers a question is as much as the digests from `a` to `b` and from `b` to `c`
-- list together.
pub collect_tasks-join :
    (q : TaskEvent → Bool) (store : Store) (nick : String) (channels : List String) (a b c : ℕ)
    → a ≤ b
    → b ≤ c
    → count_of q (collect_tasks store nick a c channels).0
      ≡ count_of q (collect_tasks store nick a b channels).0
        + count_of q (collect_tasks store nick b c channels).0
unfolding collect_tasks
collect_tasks-join q store nick channels a b c h k =
    let files = sort_by (λ (f : String × Option Task). f.0) store.records in
    let le = λ (d e : TaskEvent). leb d.at e.at in
    let sorted = λ (since now : ℕ).
      length-select-sort_with q le (scan_tasks nick channels since now files).0 in
    omega
      (arith, sorted a c, sorted a b, sorted b c, scan_tasks-join q nick channels a b c files h k)
