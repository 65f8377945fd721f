-- ===== src/Pmm/Owners.antt =====
-- The frame allocator under every sequence of calls: clients allocate pages and free those they
-- hold, in any order.
use aioncore.Base.{ℕ, ◌/◌, ◌%◌, ◌≡◌, ◌≢◌, true, false, arith, inl, inr, List, ◌∷◌}
use aioncore.Base.Seqs.{has, Distinct, erase, has-erase, erase-Distinct}
use aioncore.Pmm.{Pmm, bitmap_test, frame_size, pmm_alloc_page, pmm_free_page}
use aioncore.Pmm.Alloc.{Took, Freed, alloc-cases, free-cases}

-- the manager, and the pages that its clients hold
pub record System : Type 0 where
  pub pmm : Pmm
  pub held : List ℕ

pub data Step (s : System) : System → Type 0 where
  alloc :
      (pmm_alloc_page s.pmm).1 ≢ 0
      → Step s (record { pmm = (pmm_alloc_page s.pmm).0; held = (pmm_alloc_page s.pmm).1 ∷ s.held })
  fail :
      (pmm_alloc_page s.pmm).1 ≡ 0
      → Step s (record { pmm = (pmm_alloc_page s.pmm).0; held = s.held })
  free :
      (page : ℕ)
      → has page s.held ≡ true
      → Step s (record { pmm = pmm_free_page s.pmm page; held = erase page s.held })

pub data Reach (s : System) : System → Type 0 where
  here : Reach s s
  next : {t u : System} → Reach s t → Step t u → Reach s u

-- No page is held twice, and each is aligned and marked as allocated.
pub record IsOwned (s : System) : Type 0 where
  pub distinct : Distinct s.held
  pub aligned : (p : ℕ) → has p s.held ≡ true → p % frame_size ≡ 0
  pub marked :
      (p : ℕ) → has p s.held ≡ true → bitmap_test s.pmm.frame_bitmap (p / frame_size) ≡ true

-- A nonzero page that the allocator returns is held by nobody, if the pages held are distinct,
-- aligned and marked.
pub alloc-fresh :
    {s : System}
    → IsOwned s
    → (pmm_alloc_page s.pmm).1 ≢ 0
    → has (pmm_alloc_page s.pmm).1 s.held ≡ false
alloc-fresh {s} v ne = elim (alloc-cases s.pmm) [
  | inl (_, e) ↦ absurd (ground arith)
  | inr took ↦ ground (arith, v.marked (pmm_alloc_page s.pmm).1)
]

Took-IsOwned :
    {s : System} {t : Pmm} {addr : ℕ}
    → IsOwned s
    → Took s.pmm t addr
    → IsOwned (record { pmm = t; held = addr ∷ s.held })
Took-IsOwned {s} {addr} v took = record {
  distinct = (ground (arith, v.marked addr), v.distinct);
  aligned = λ p h. ground (arith, v.aligned p);
  marked = λ p h. ground (arith, v.marked p, took.frames (p / frame_size));
}

Took-same :
    {s : System} {t : Pmm} {addr : ℕ}
    → IsOwned s
    → Took s.pmm t addr
    → IsOwned (record { pmm = t; held = s.held })
Took-same {s} {addr} v took = record {
  distinct = v.distinct;
  aligned = v.aligned;
  marked = λ p h. ground (arith, v.marked p h, took.frames (p / frame_size));
}

Freed-IsOwned :
    {s : System} {t : Pmm} {page : ℕ}
    → IsOwned s
    → has page s.held ≡ true
    → Freed s.pmm page t
    → IsOwned (record { pmm = t; held = erase page s.held })
Freed-IsOwned {s} {page} v h freed = record {
  distinct = erase-Distinct page s.held v.distinct;
  aligned = λ p k. ground (arith, v.aligned p, has-erase page p s.held v.distinct);
  marked = λ p k. ground (
    arith,
    v.marked p,
    v.aligned p,
    v.aligned page,
    has-erase page p s.held v.distinct,
    freed.frames (p / frame_size),
  );
}

pub Step-IsOwned : {s t : System} → Step s t → IsOwned s → IsOwned t
Step-IsOwned {s} (alloc ne) v = elim (alloc-cases s.pmm) [
  | inl (_, e) ↦ absurd (ground arith)
  | inr took ↦ Took-IsOwned v took
]
Step-IsOwned {s} (fail e) v = elim (alloc-cases s.pmm) [
  | inl (_, same) ↦ rw same v
  | inr took ↦ Took-same v took
]
Step-IsOwned {s} (free page h) v = elim (free-cases s.pmm page) [
  | inl (clear, _) ↦ absurd (ground (arith, v.marked page h))
  | inr freed ↦ Freed-IsOwned v h freed
]

-- After any sequence of allocations and of frees of held pages, no page is held twice, and every
-- held page is aligned and marked as taken in the bitmap, if this is so at the start.
pub Reach-IsOwned : {s t : System} → Reach s t → IsOwned s → IsOwned t
Reach-IsOwned here v = v
Reach-IsOwned (next r st) v = Step-IsOwned st (Reach-IsOwned r v)
