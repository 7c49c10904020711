-- ===== src/Jni/Locks/Finish.antt =====
-- How many steps the operations that are under way have left.
use tox4j.Base.{
  ℕ, zero, suc, ◌+◌, ◌≤◌, ◌<◌, ◌≡◌, ◌≢◌, ◌⊎◌, inl, inr, refl, arith, ap, sym, ◌∙◌, ltb, Bool-cases,
  ◌==◌, ◌*◌,
}
use tox4j.Jni.Locks.{
  Pc, idle, at_table, in_table, waits, entering, running, dying, closing, destroying, leaving,
  System, Step, arrive, Reach, later,
}
use tox4j.Jni.Locks.Invariant.{guard}
use tox4j.Jni.Locks.Progress.{no_deadlock}

-- The steps that a thread has at most before it.
abbrev pub rank : Pc → ℕ
rank idle = 0
rank (at_table _) = 6
rank (in_table _) = 5
rank (waits _) = 4
rank (entering _) = 3
rank (running _) = 1
rank (dying _) = 4
rank (closing _) = 3
rank (destroying _) = 2
rank leaving = 1

-- Of the first `n` threads.
pub total : ℕ → (ℕ → Pc) → ℕ
total zero pc = 0
total (suc n) pc = total n pc + rank (pc n)

total_same :
    (n j : ℕ) (f g : ℕ → Pc) → ((k : ℕ) → k ≢ j → g k ≡ f k) → n ≤ j → total n g ≡ total n f
unfolding total
total_same zero j f g same h = refl
total_same (suc n) j f g same h =
    omega (arith, total_same n j f g same (omega arith), ap rank (same n (omega arith)))

total_lt :
    (n j : ℕ) (f g : ℕ → Pc)
    → ((k : ℕ) → k ≢ j → g k ≡ f k)
    → rank (g j) < rank (f j)
    → j < n
    → total n g < total n f
unfolding total
total_lt zero j f g same lt h = absurd (omega arith)
total_lt (suc n) j f g same lt h = elim (Bool-cases (ltb j n)) [
  | inl below ↦ omega (
    arith,
    total_lt n j f g same lt (ground arith),
    ap rank (same n (λ q. absurd (ground arith))),
  )
  | inr last ↦
      let e : j ≡ n = ground arith in
      omega (
        arith,
        total_same n j f g same (omega arith),
        ap (λ (x : ℕ). rank (g x)) e,
        ap (λ (x : ℕ). rank (f x)) e,
      )
]

-- A step of an operation that is under way changes its thread only, and brings it nearer to its end.
step_others : {j : ℕ} {s t : System} → Step j s t → (k : ℕ) → k ≢ j → t.pc k ≡ s.pc k
step_others (arrive o e) k d = ground arith
step_others st k d = ground arith

step_rank : {j : ℕ} {s t : System} → Step j s t → s.pc j ≢ idle → rank (t.pc j) < rank (s.pc j)
step_rank (arrive o e) b = absurd (b e)
step_rank {j} st b = ground (arith, guard st)

-- Steps of operations that are under way, `k` of them.
pub data Working : ℕ → System → System → Type 0 where
  done : {s : System} → Working 0 s s
  works :
      {k : ℕ} {s t u : System} (j : ℕ)
      → s.pc j ≢ idle
      → Step j s t
      → Working k t u
      → Working (suc k) s u

-- From the n-th thread on, all are outside the library.
abbrev pub Quiet : ℕ → System → Type 0
Quiet n s = (i : ℕ) → n ≤ i → s.pc i ≡ idle

busy-lt : (n j : ℕ) (s : System) → Quiet n s → s.pc j ≢ idle → j < n
busy-lt n j s quiet b = elim (Bool-cases (ltb j n)) [
  | inl below ↦ ground arith
  | inr beyond ↦ absurd (b (quiet j (ground arith)))
]

step_total :
    {j : ℕ} {s t : System} (n : ℕ)
    → Quiet n s
    → s.pc j ≢ idle
    → Step j s t
    → total n t.pc < total n s.pc
step_total {j} {s} {t} n quiet b st =
    total_lt n j s.pc t.pc (step_others st) (step_rank st b) (busy-lt n j s quiet b)

step-Quiet : {j : ℕ} {s t : System} (n : ℕ) → Quiet n s → s.pc j ≢ idle → Step j s t → Quiet n t
step-Quiet {j} {s} {t} n quiet b st i h =
    step_others st i (λ q. b (ap s.pc (sym q) ∙ quiet i h)) ∙ quiet i h

Working-total :
    {k : ℕ} {s t : System} (n : ℕ) → Quiet n s → Working k s t → k + total n t.pc ≤ total n s.pc
Working-total n quiet done = omega arith
Working-total n quiet (works j b st w) =
    omega (arith, Working-total n (step-Quiet n quiet b st) w, step_total n quiet b st)

total-le : (n : ℕ) (pc : ℕ → Pc) → total n pc ≤ 6 * n
unfolding total
total-le zero pc = omega arith
total-le (suc n) pc = omega (arith, total-le n pc, rank-le (pc n))
  where
    rank-le : (p : Pc) → rank p ≤ 6
    rank-le p = ground arith

steps_bound : {k : ℕ} {s t : System} (n : ℕ) → Quiet n s → Working k s t → k ≤ 6 * n
steps_bound {k} {s} n quiet w = omega (arith, Working-total n quiet w, total-le n s.pc)

idle_of_rank : (p : Pc) → rank p ≡ 0 → p ≡ idle
idle_of_rank idle h = refl
idle_of_rank p h = ground arith

busy_or_idle : (n : ℕ) (pc : ℕ → Pc) → ((j : ℕ) × (pc j ≢ idle)) ⊎ (total n pc ≡ 0)
unfolding total
busy_or_idle zero pc = inr refl
busy_or_idle (suc n) pc = elim (busy_or_idle n pc) [
  | inl busy ↦ inl busy
  | inr none_before ↦ elim (Bool-cases (rank (pc n) == 0)) [
    | inl e ↦ inr (ground arith)
    | inr e ↦ inl (n, λ q. ground (arith, ap rank q))
  ]
]

total_zero : (n i : ℕ) (pc : ℕ → Pc) → total n pc ≡ 0 → i < n → pc i ≡ idle
unfolding total
total_zero zero i pc h lt = absurd (omega arith)
total_zero (suc n) i pc h lt = elim (Bool-cases (ltb i n)) [
  | inl below ↦ total_zero n i pc (omega arith) (ground arith)
  | inr last ↦ let e : i ≡ n = ground arith in ap pc e ∙ idle_of_rank (pc n) (omega arith)
]

-- All threads are outside the library after some steps.
abbrev pub Finishes : System → Type 0
Finishes s = (k : ℕ) × (t : System) × Working k s t × ((i : ℕ) → t.pc i ≡ idle)

all_idle : (s : System) (n : ℕ) → Quiet n s → total n s.pc ≡ 0 → (i : ℕ) → s.pc i ≡ idle
all_idle s n quiet z i = elim (Bool-cases (ltb i n)) [
  | inl below ↦ total_zero n i s.pc z (ground arith)
  | inr beyond ↦ quiet i (ground arith)
]

finish_within : (f : ℕ) {s : System} (n : ℕ) → Reach s → Quiet n s → total n s.pc ≤ f → Finishes s
finish_within zero {s} n r quiet h = (0, s, done, all_idle s n quiet (omega arith))
finish_within (suc f) {s} n r quiet h = elim (busy_or_idle n s.pc) [
  | inr z ↦ (0, s, done, all_idle s n quiet z)
  | inl (i, b) ↦
      let (j, busy, (t, st)) = no_deadlock r i b in
      let (k, u, w, e) =
        finish_within f {s = t} n (later j r st) (step-Quiet n quiet busy st)
          (omega (arith, step_total n quiet busy st)) in
      (suc k, u, works j busy st w, e)
]

-- In every state that is reached with only the first `n` threads in the library, however the threads are
-- scheduled from there, the operations that are under way take at most six steps for each of these
-- threads; and there are steps of them alone that lead to a state with no thread in the library.
pub operations_finish :
    {s : System} (n : ℕ)
    → Reach s
    → Quiet n s
    → ((k : ℕ) (t : System) → Working k s t → k ≤ 6 * n) × Finishes s
operations_finish {s} n r quiet =
    ((λ k t w. steps_bound n quiet w), finish_within (total n s.pc) n r quiet (omega arith))
