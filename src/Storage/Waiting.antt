-- ===== src/Storage/Waiting.antt =====
-- The budget as many callers share it: each acquires an amount and gives that amount back once.
use simple_host_enterprise.Common.{
  ℕ, ◌+◌, ◌-◌, ◌≤◌, ◌≡◌, refl, ap, ◌∙◌, false, some, List, [], ◌∷◌, ◌++◌, arith, ltb, sum_by,
  sum_by-append,
}
use simple_host_enterprise.Storage.Budget.{
  ℤ, pos, negsuc, MemoryBudget, new_memory_budget, clamp, try_acquire, release,
}

-- A caller acquires, where the budget lets it, or one that holds an amount releases it.
pub data Step : MemoryBudget → List ℤ → MemoryBudget → List ℤ → Type 0 where
  acquires :
      (b c : MemoryBudget) (held : List ℤ) (n : ℤ)
      → try_acquire b n ≡ some c
      → Step b held c (n ∷ held)
  releases :
      (b : MemoryBudget) (before after : List ℤ) (n : ℤ)
      → Step b (before ++ (n ∷ after)) (release b n) (before ++ after)

pub data Reach (total : ℕ) : MemoryBudget → List ℤ → Type 0 where
  starts : Reach total (new_memory_budget total) []
  steps :
      (b c : MemoryBudget) (held left : List ℤ)
      → Reach total b held
      → Step b held c left
      → Reach total c left

-- What is held, each amount as the budget counts it.
abbrev pub held_bytes : ℕ → List ℤ → ℕ
held_bytes total held = sum_by (clamp (new_memory_budget total)) held

clamp-total : (b : MemoryBudget) (n : ℤ) → clamp b n ≡ clamp (new_memory_budget b.total) n
unfolding clamp
clamp-total b (pos n) = refl
clamp-total b (negsuc n) = refl

clamp-le : (b : MemoryBudget) (n : ℤ) → clamp b n ≤ b.total
unfolding clamp
clamp-le b (pos n) = ground arith
clamp-le b (negsuc n) = omega arith

try_acquire-ok :
    (b c : MemoryBudget) (n : ℤ)
    → try_acquire b n ≡ some c
    → (c.total ≡ b.total) × (c.free + clamp b n ≡ b.free)
unfolding try_acquire
try_acquire-ok b c n h = ground (arith, h)

release-total : (b : MemoryBudget) (n : ℤ) → (release b n).total ≡ b.total
unfolding release
release-total b n = refl

release-free : (b : MemoryBudget) (n : ℤ) → (release b n).free ≡ b.free + clamp b n
unfolding release
release-free b n = refl

not_less : (b : MemoryBudget) (n : ℤ) → clamp b n ≤ b.free → ltb b.free (clamp b n) ≡ false
not_less b n h = ground arith

whole-clamp : (total n : ℕ) → total ≤ n → clamp (new_memory_budget total) (pos n) ≡ total
unfolding clamp
whole-clamp total n h = ground arith

clamp-eq :
    (total : ℕ) (b : MemoryBudget) (n : ℤ)
    → b.total ≡ total
    → clamp b n ≡ clamp (new_memory_budget total) n
clamp-eq total b n e = clamp-total b n ∙ ap (λ t. clamp (new_memory_budget t) n) e

abbrev Conserved : ℕ → MemoryBudget → List ℤ → Type 0
Conserved total b held = (b.total ≡ total) × (b.free + held_bytes total held ≡ total)

Step-Conserved :
    (total : ℕ) (b c : MemoryBudget) (held left : List ℤ)
    → Step b held c left
    → Conserved total b held
    → Conserved total c left
Step-Conserved total _ _ _ _ (acquires b c held n h) (t, e) =
    let (same, paid) = try_acquire-ok b c n h in
    (same ∙ t, omega (arith, paid, e, clamp-eq total b n t))
Step-Conserved total _ _ _ _ (releases b before after n) (t, e) = (
  release-total b n ∙ t,
  omega (
    arith,
    e,
    release-free b n,
    clamp-eq total b n t,
    sum_by-append (clamp (new_memory_budget total)) before (n ∷ after),
    sum_by-append (clamp (new_memory_budget total)) before after,
  ),
)

conserved :
    (total : ℕ) (b : MemoryBudget) (held : List ℤ) → Reach total b held → Conserved total b held
conserved total _ _ starts = (refl, omega arith)
conserved total _ _ (steps b c held left r s) =
    Step-Conserved total b c held left s (conserved total b held r)

-- Whatever was acquired and released, in any order, what is free and what is held together are the
-- total of the budget.
pub budget_conserved :
    (total : ℕ) (b : MemoryBudget) (held : List ℤ)
    → Reach total b held
    → b.free + held_bytes total held ≡ total
budget_conserved total b held r = (conserved total b held r).1

-- Whatever was acquired and released before, once nobody holds anything a request of any size is
-- served at once.
pub idle_serves :
    (total : ℕ) (b : MemoryBudget) (n : ℤ)
    → Reach total b []
    → (c : MemoryBudget) × (try_acquire b n ≡ some c)
unfolding try_acquire
idle_serves total b n r =
    let (t, e) = conserved total b [] r in
    (
      record b { free = b.free - clamp b n },
      rw (not_less b n (omega (arith, t, e, clamp-le b n)), try_acquire) refl,
    )

-- While a request as large as the whole budget, or larger, is being served, no other bytes are
-- held.
pub whole_budget_alone :
    (total : ℕ) (b : MemoryBudget) (n : ℕ) (others : List ℤ)
    → Reach total b (pos n ∷ others)
    → total ≤ n
    → held_bytes total others ≡ 0
unfolding clamp
whole_budget_alone total b n others r h =
    omega (arith, (conserved total b (pos n ∷ others) r).1, whole-clamp total n h)
