-- ===== src/Counted.antt =====
-- What src/lua-textdict.c and src/lua-shareval.c have in common: blocks of memory that count the
-- references to them, and the threads that hold some. The count is an `int`, which the number of threads
-- does not reach; to count below 0, and to touch what was freed, is a fault.
pub mod Threads
pub mod System
pub mod Schedule
pub mod Slot
use my_skynet.Prelude.{
  ℕ, zero, suc, ◌+◌, ◌-◌, ◌≤◌, ◌<◌, ◌≡◌, refl, arith, List, [], ◌∷◌, ◌++◌, Bool, true, false, ◌||◌,
  Option, none, some, ◌==◌, if◌then◌else◌, length, get_or, get_or-set, set, length-set,
}

pub record Cell (A : Type 0) : Type 0 where
  pub content : A
  pub ref : ℕ
  pub freed : Bool

-- whether a pointer is to an address
abbrev pub points : Option ℕ → ℕ → ℕ
points none a = 0
points (some b) a = if b == a then 1 else 0

-- `a == b` on pointers
unfoldable pub same_pointer : Option ℕ → Option ℕ → Bool
same_pointer none none = true
same_pointer none (some b) = false
same_pointer (some a) none = false
same_pointer (some a) (some b) = a == b

pub same_pointer-true : (p q : Option ℕ) → same_pointer p q ≡ true → p ≡ q
unfolding same_pointer
same_pointer-true none none e = refl
same_pointer-true none (some b) e = cc
same_pointer-true (some a) none e = cc
same_pointer-true (some a) (some b) e = ground (arith, e)

module _ {A : Type 0} where
  -- the count at an address, 0 where nothing was allocated, and whether its block was freed
  unfoldable pub ref_of : List (Cell A) → ℕ → ℕ
  ref_of [] a = 0
  ref_of (c ∷ cells) zero = c.ref
  ref_of (c ∷ cells) (suc a) = ref_of cells a

  unfoldable pub freed_of : List (Cell A) → ℕ → Bool
  freed_of [] a = true
  freed_of (c ∷ cells) zero = c.freed
  freed_of (c ∷ cells) (suc a) = freed_of cells a

  -- what the block at an address holds, none for a fault
  unfoldable pub read : List (Cell A) → ℕ → Option A
  read [] a = none
  read (c ∷ cells) zero = if c.freed then none else some c.content
  read (c ∷ cells) (suc a) = read cells a

  -- `__sync_add_and_fetch(&ctx->ref, 1)`, none for a fault
  unfoldable pub grab_ref : List (Cell A) → ℕ → Option (List (Cell A))
  grab_ref [] a = none
  grab_ref (c ∷ cells) zero = if c.freed then none else some (record c { ref = c.ref + 1 } ∷ cells)
  grab_ref (c ∷ cells) (suc a) = elim (grab_ref cells a) [ none ↦ none | some r ↦ some (c ∷ r) ]

  -- `dict_release` and `sval_release`: the count falls, and at 0 the block is freed
  unfoldable pub release_ref : List (Cell A) → ℕ → Option (List (Cell A))
  release_ref [] a = none
  release_ref (c ∷ cells) zero =
      if c.freed || c.ref == 0
      then none
      else some (record c { ref = c.ref - 1; freed = c.ref == 1 } ∷ cells)
  release_ref (c ∷ cells) (suc a) = elim (release_ref cells a) [
    | none ↦ none
    | some r ↦ some (c ∷ r)
  ]

  -- a new block, with the reference of the thread that allocated it
  unfoldable pub allocate : List (Cell A) → A → List (Cell A)
  allocate cells x = cells ++ (record { content = x; ref = 1; freed = false }) ∷ []

  -- Exactly the blocks that nobody refers to are freed.
  abbrev pub AreLive : List (Cell A) → Type 0
  AreLive cells = (a : ℕ) → freed_of cells a ≡ (ref_of cells a == 0)

  -- What an operation leaves, which does not fault: the counts change by `more` and `less`.
  pub record Counts (cells cells' : List (Cell A)) (more less : ℕ → ℕ) : Type 0 where
    pub live : AreLive cells'
    pub size : length cells' ≡ length cells
    pub counts : (a : ℕ) → ref_of cells' a + less a ≡ ref_of cells a + more a

  -- A change of the first block alone, and one behind it.
  Counts-head :
      (c c' : Cell A) (cells : List (Cell A)) (more less : ℕ → ℕ)
      → AreLive (c ∷ cells)
      → c'.freed ≡ (c'.ref == 0)
      → c'.ref + less 0 ≡ c.ref + more 0
      → ((b : ℕ) → less (suc b) ≡ more (suc b))
      → Counts (c ∷ cells) (c' ∷ cells) more less
  unfolding ref_of freed_of
  Counts-head c c' cells more less v e f g = record { live = live; size = refl; counts = counts }
    where
      live : (a : ℕ) → freed_of (c' ∷ cells) a ≡ (ref_of (c' ∷ cells) a == 0)
      live zero = e
      live (suc b) = v (suc b)

      counts : (a : ℕ) → ref_of (c' ∷ cells) a + less a ≡ ref_of (c ∷ cells) a + more a
      counts zero = f
      counts (suc b) = omega (arith, g b)

  Counts-tail :
      (c : Cell A) (cells cells' : List (Cell A)) (more less more' less' : ℕ → ℕ)
      → AreLive (c ∷ cells)
      → Counts cells cells' more less
      → more' 0 ≡ less' 0
      → ((b : ℕ) → (more' (suc b) ≡ more b) × (less' (suc b) ≡ less b))
      → Counts (c ∷ cells) (c ∷ cells') more' less'
  unfolding ref_of freed_of
  Counts-tail c cells cells' more less more' less' v after e g = record {
    live = live;
    size = omega (arith, after.size);
    counts = counts;
  }
    where
      live : (a : ℕ) → freed_of (c ∷ cells') a ≡ (ref_of (c ∷ cells') a == 0)
      live zero = v 0
      live (suc b) = after.live b

      counts : (a : ℕ) → ref_of (c ∷ cells') a + less' a ≡ ref_of (c ∷ cells) a + more' a
      counts zero = omega (arith, e)
      counts (suc b) = omega (arith, (g b).0, (g b).1, after.counts b)

  pub read-live :
      (cells : List (Cell A)) (a : ℕ)
      → AreLive cells
      → 0 < ref_of cells a
      → (x : A) × (read cells a ≡ some x)
  unfolding ref_of freed_of read
  read-live [] a v h = absurd (omega (arith, h))
  read-live (c ∷ cells) zero v h = (c.content, ground (arith, v 0, h))
  read-live (c ∷ cells) (suc a) v h = read-live cells a (λ b. v (suc b)) h

  pub grab_ref-live :
      (cells : List (Cell A)) (a : ℕ)
      → AreLive cells
      → 0 < ref_of cells a
      → (cells' : List (Cell A)) × (grab_ref cells a ≡ some cells')
        × Counts cells cells' (points (some a)) (λ b. 0)
  unfolding ref_of freed_of grab_ref
  grab_ref-live [] a v h = absurd (omega (arith, h))
  grab_ref-live (c ∷ cells) zero v h = (
    record c { ref = c.ref + 1 } ∷ cells,
    ground (arith, v 0, h),
    Counts-head c (record c { ref = c.ref + 1 }) cells (points (some 0)) (λ b. 0) v
        (ground (arith, v 0, h)) (omega (arith, h)) (λ b. ground arith),
  )
  grab_ref-live (c ∷ cells) (suc a) v h =
      let (rest, run, after) = grab_ref-live cells a (λ b. v (suc b)) h in
      (
        c ∷ rest,
        rw (run, grab_ref) refl,
        Counts-tail c cells rest (points (some a)) (λ b. 0) (points (some (suc a))) (λ b. 0) v after
            (ground arith) (λ b. (ground arith, ground arith)),
      )

  pub release_ref-live :
      (cells : List (Cell A)) (a : ℕ)
      → AreLive cells
      → 0 < ref_of cells a
      → (cells' : List (Cell A)) × (release_ref cells a ≡ some cells')
        × Counts cells cells' (λ b. 0) (points (some a))
  unfolding ref_of freed_of release_ref
  release_ref-live [] a v h = absurd (omega (arith, h))
  release_ref-live (c ∷ cells) zero v h = (
    record c { ref = c.ref - 1; freed = c.ref == 1 } ∷ cells,
    ground (arith, v 0, h),
    Counts-head c (record c { ref = c.ref - 1; freed = c.ref == 1 }) cells (λ b. 0)
        (points (some 0)) v (ground (arith, v 0, h)) (omega (arith, h)) (λ b. ground arith),
  )
  release_ref-live (c ∷ cells) (suc a) v h =
      let (rest, run, after) = release_ref-live cells a (λ b. v (suc b)) h in
      (
        c ∷ rest,
        rw (run, release_ref) refl,
        Counts-tail c cells rest (λ b. 0) (points (some a)) (λ b. 0) (points (some (suc a))) v after
            (ground arith) (λ b. (ground arith, ground arith)),
      )

  pub allocate-live : (cells : List (Cell A)) (x : A) → AreLive cells → AreLive (allocate cells x)
  unfolding ref_of freed_of allocate
  allocate-live [] x v zero = refl
  allocate-live [] x v (suc b) = refl
  allocate-live (c ∷ cells) x v zero = v 0
  allocate-live (c ∷ cells) x v (suc b) = allocate-live cells x (λ b. v (suc b)) b

  pub ref_of-allocate :
      (cells : List (Cell A)) (x : A) (a : ℕ)
      → ref_of (allocate cells x) a ≡ ref_of cells a + points (some (length cells)) a
  unfolding ref_of allocate
  ref_of-allocate [] x zero = refl
  ref_of-allocate [] x (suc b) = ground arith
  ref_of-allocate (c ∷ cells) x zero = ground arith
  ref_of-allocate (c ∷ cells) x (suc b) = ground (arith, ref_of-allocate cells x b)
