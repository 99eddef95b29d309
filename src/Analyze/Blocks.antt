-- ===== src/Analyze/Blocks.antt =====
-- The memory that an analysis owns: the allocations of `AnalyzeNew`, the growth of the worklist in
-- `push`, and `AnalyzeFree`. The heap is the list of the live blocks, and the outcome of each
-- allocation is an argument.
use dis.Base.{
  ℕ, ◌≡◌, refl, sym, subst, arith, Bool, true, false, not, ◌&&◌, ◌||◌, Option, none, some, List, [],
  ◌∷◌, ◌==◌, if◌then◌else◌, ◌>>=◌, ◌⊎◌, inl, inr,
}

-- The blocks of an analysis, by the pointer that holds them, and those of the rest of the program.
pub data Block : Type 0 where
  self flags callers work : Block
  other : ℕ → Block

abbrev block_eq : Block → Block → Bool
block_eq self self = true
block_eq flags flags = true
block_eq callers callers = true
block_eq work work = true
block_eq (other i) (other j) = i == j
block_eq _ _ = false

abbrev pub Heap : Type 0
Heap = List Block

-- `calloc`: whether the pointer is not NULL, and the heap.
abbrev pub allocate : Bool → Block → Heap → Bool × Heap
allocate granted b heap = (granted, if granted then b ∷ heap else heap)

abbrev pub cons_heap : Block → Option Heap → Option Heap
cons_heap b none = none
cons_heap b (some heap) = some (b ∷ heap)

-- A block is given back, `none` where it is not live.
abbrev pub give_back : Block → Heap → Option Heap
give_back b [] = none
give_back b (c ∷ heap) = if block_eq b c then some heap else cons_heap c (give_back b heap)

-- `free` of a pointer, which does nothing for NULL.
abbrev pub free : Bool → Block → Heap → Option Heap
free held b heap = if held then give_back b heap else some heap

-- Which of the three arrays of an analysis are not NULL.
pub record Owned : Type 0 where
  pub has_flags : Bool
  pub has_callers : Bool
  pub has_work : Bool

-- `AnalyzeFree`
unfoldable pub analyze_free : Option Owned → Heap → Option Heap
analyze_free none heap = some heap
analyze_free (some o) heap = do
  h ← free o.has_flags flags heap
  h' ← free o.has_callers callers h
  h'' ← free o.has_work work h'
  give_back self h''

abbrev with_result : Option Owned → Option Heap → Option (Option Owned × Heap)
with_result o none = none
with_result o (some heap) = some (o, heap)

-- `AnalyzeNew` after its tests of the arguments, with the outcomes of its three allocations.
unfoldable pub analyze_new_blocks : Bool → Bool → Bool → Heap → Option (Option Owned × Heap)
analyze_new_blocks got_self got_flags got_callers heap =
    let (a, h) = allocate got_self self heap in
    let (f, h') = allocate got_flags flags h in
    let (c, h'') = allocate got_callers callers h' in
    let o : Owned = record { has_flags = f; has_callers = c; has_work = false } in
    if not a
    then some (none, h)
    else if not f || not c
    then with_result none (analyze_free (some o) h'')
    else some (some o, h'')

-- The `realloc` of `push`: a block that grows takes the place of the old one.
unfoldable pub grow : Bool → Owned → Heap → Owned × Heap
grow granted o heap =
    if granted && not o.has_work then (record o { has_work = true }, work ∷ heap) else (o, heap)

-- `grow` for the outcome of each `realloc` of a run.
unfoldable pub grow_all : List Bool → Owned → Heap → Owned × Heap
grow_all [] o heap = (o, heap)
grow_all (granted ∷ rest) o heap = grow_all rest (grow granted o heap).0 (grow granted o heap).1

-- What a successful `AnalyzeNew` holds on top of the heap that it found, the worklist included.
abbrev holding : Owned → Heap → Heap
holding o heap =
    if o.has_work then work ∷ callers ∷ flags ∷ self ∷ heap else callers ∷ flags ∷ self ∷ heap

abbrev IsWhole : Owned → Type 0
IsWhole o = (o.has_flags ≡ true) × (o.has_callers ≡ true)

grow-holding :
    (granted : Bool) (o : Owned) (heap : Heap)
    → IsWhole o
    → IsWhole (grow granted o (holding o heap)).0
      × ((grow granted o (holding o heap)).1 ≡ holding (grow granted o (holding o heap)).0 heap)
unfolding grow
grow-holding granted o heap whole = ground (arith, whole)

grow_all-holding :
    (outcomes : List Bool) (o : Owned) (heap : Heap)
    → IsWhole o
    → IsWhole (grow_all outcomes o (holding o heap)).0
      × ((grow_all outcomes o (holding o heap)).1
          ≡ holding (grow_all outcomes o (holding o heap)).0 heap)
unfolding grow_all
grow_all-holding [] o heap whole = (whole, refl)
grow_all-holding (granted ∷ rest) o heap whole =
    let step = grow-holding granted o heap whole in
    let o' = (grow granted o (holding o heap)).0 in
    subst
      (λ (h : Heap).
        IsWhole (grow_all rest o' h).0
        × ((grow_all rest o' h).1 ≡ holding (grow_all rest o' h).0 heap))
      (sym step.1) (grow_all-holding rest o' heap step.0)

free-holding :
    (o : Owned) (heap : Heap) → IsWhole o → analyze_free (some o) (holding o heap) ≡ some heap
unfolding analyze_free
free-holding o heap whole = ground (arith, whole)

-- Whatever allocations fail, no block leaks and none is given back twice: where AnalyzeNew returns
-- NULL it leaves the heap that it found, and otherwise AnalyzeFree restores that heap, whichever
-- calls of realloc in push succeed in between.
pub analyze_free-restores :
    (got_self got_flags got_callers : Bool) (outcomes : List Bool) (heap : Heap)
    → (analyze_new_blocks got_self got_flags got_callers heap ≡ some (none, heap))
      ⊎ ((o : Owned) × (h : Heap) × (analyze_new_blocks got_self got_flags got_callers heap
            ≡ some (some o, h))
          × (analyze_free (some (grow_all outcomes o h).0) (grow_all outcomes o h).1 ≡ some heap))
unfolding analyze_new_blocks
analyze_free-restores true true true outcomes heap =
    let o : Owned = record { has_flags = true; has_callers = true; has_work = false } in
    let grown = grow_all-holding outcomes o heap (refl, refl) in
    inr (
      o,
      holding o heap,
      refl,
      rw grown.1 (free-holding (grow_all outcomes o (holding o heap)).0 heap grown.0),
    )
analyze_free-restores true true false outcomes heap = inl (unfold analyze_free in refl)
analyze_free-restores true false true outcomes heap = inl (unfold analyze_free in refl)
analyze_free-restores true false false outcomes heap = inl (unfold analyze_free in refl)
analyze_free-restores false f c outcomes heap = inl refl
