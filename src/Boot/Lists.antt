-- ===== src/Boot/Lists.antt =====
-- The lists of LLOS_Init, as entries that are allocated one after the other.
use mathlib.Core.Path.{subst}
use llos.Base.{
  ℕ, ◌+◌, ◌-◌, ◌*◌, ◌≤◌, ◌<◌, ◌≡◌, refl, ap, ◌∙◌, arith, false, Option, none, some, List, [], ◌∷◌,
  ◌++◌, if◌then◌else◌, leb, ◌==◌, Bool-cases, inl, inr,
}
use llos.Types.{err_overflow}
use llos.Pool.{Pool, malloc}
use llos.Pool.Chunks.{IsHeap}
use llos.Pool.Heap.{holding}
use llos.Boot.{
  System, HookCalls, Stage, stopped, ready, clear_block, handle_error, wipe, store_list, make_list,
  make_optional, ◌>>=◌,
}
use llos.Boot.Layout.{layout, taken, malloc-layout, malloc-layout-none, clear_block-layout}

pub record Entry (A : Type 0) : Type 0 where
  pub count : ℕ
  pub size : ℕ
  pub words : ℕ
  pub put : Option ℕ → System A → System A

module _ {A : Type 0} where
  -- The size is that of the words, a list with elements has words, and the pointer is stored beside the pool.
  pub record IsEntry (e : Entry A) : Type 0 where
    pub exact : e.size ≡ 4 * e.words
    pub small : e.words ≤ 0xffff
    pub some_words : (e.count == 0) ≡ false → 1 ≤ e.words
    pub beside :
        (a : Option ℕ) (q : Pool) (s : System A)
        → e.put a (record s { pool = q }) ≡ record (e.put a s) { pool = q }

  abbrev pub AreEntries : List (Entry A) → Type 0
  AreEntries [] = Unit
  AreEntries (e ∷ es) = IsEntry e × AreEntries es

  -- The words that an entry takes with its header, the blocks after it, and where its list is.
  abbrev pub need : Entry A → ℕ
  need e = if e.count == 0 then 0 else e.words + 1

  abbrev pub grown : List ℕ → Entry A → List ℕ
  grown bs e = if e.count == 0 then bs else bs ++ e.words ∷ []

  abbrev pub address_of : ℕ → List ℕ → Entry A → Option ℕ
  address_of base bs e = if e.count == 0 then none else some (base + 4 * (taken bs + 1))

  abbrev pub build : HookCalls A → List (Entry A) → System A → Stage A
  build calls [] s = ready s
  build calls (e ∷ es) s = make_optional calls e.count e.size e.put s >>= build calls es

  abbrev pub total : List (Entry A) → ℕ
  total [] = 0
  total (e ∷ es) = need e + total es

  abbrev pub all_grown : List ℕ → List (Entry A) → List ℕ
  all_grown bs [] = bs
  all_grown bs (e ∷ es) = all_grown (grown bs e) es

  -- The pointers and the lists are stored.
  abbrev pub filled : ℕ → List ℕ → List (Entry A) → System A → System A
  filled base bs [] s = s
  filled base bs (e ∷ es) s = filled base (grown bs e) es (e.put (address_of base bs e) s)

  pub filled-beside :
      (base : ℕ) (bs : List ℕ) (es : List (Entry A)) (q : Pool) (s : System A)
      → AreEntries es
      → filled base bs es (record s { pool = q }) ≡ record (filled base bs es s) { pool = q }
  filled-beside base bs [] q s all = refl
  filled-beside base bs (e ∷ es) q s all =
      ap (filled base (grown bs e) es) (all.0.beside (address_of base bs e) q s)
      ∙ filled-beside base (grown bs e) es q (e.put (address_of base bs e) s) all.1

  make_list-fits :
      (calls : HookCalls A) (e : Entry A) (base n : ℕ) (bs : List ℕ) (s : System A)
      → IsEntry e
      → 1 ≤ e.words
      → IsHeap s.pool base (layout bs n)
      → e.words + 1 ≤ n
      → (q : Pool) × (make_list calls e.size e.put s
          ≡ ready (record (e.put (some (base + 4 * (taken bs + 1))) s) { pool = q }))
        × IsHeap q base (layout (bs ++ e.words ∷ []) (n - (e.words + 1)))
  unfolding make_list
  make_list-fits calls e base n bs s ok low heap room =
      let rest : ℕ = n - (e.words + 1) in
      let q : Pool = holding s.pool (layout (bs ++ e.words ∷ []) rest) in
      let a : ℕ = base + 4 * (taken bs + 1) in
      let (given, next) = malloc-layout s.pool base n bs e.words heap low ok.small room in
      let stored : e.put (some a) (record s { pool = q }) ≡ record (e.put (some a) s) { pool = q } =
        ok.beside (some a) q s in
      let clear : clear_block q a e.size ≡ q =
        ap (clear_block q a) ok.exact ∙ clear_block-layout s.pool base rest e.words bs heap.based in
      (
        q,
        ap (λ m. store_list calls e.size e.put s (malloc s.pool m)) ok.exact
            ∙ ap (store_list calls e.size e.put s) given
            ∙ ap (λ t. ready (record t { pool = clear_block t.pool a e.size })) stored
            ∙ ap (λ p. ready (record (e.put (some a) s) { pool = p })) clear,
        next,
      )

  make_optional-fits :
      (calls : HookCalls A) (e : Entry A) (base n : ℕ) (bs : List ℕ) (s : System A)
      → IsEntry e
      → IsHeap s.pool base (layout bs n)
      → need e ≤ n
      → (q : Pool) × (make_optional calls e.count e.size e.put s
          ≡ ready (record (e.put (address_of base bs e) s) { pool = q }))
        × IsHeap q base (layout (grown bs e) (n - need e))
  unfolding make_optional
  make_optional-fits calls e base n bs s ok heap = elim (Bool-cases (e.count == 0)) [
    | inl empty ↦
        let same : n ≡ n - 0 = omega arith in
        rw empty (λ room. (
          s.pool,
          ap ready (ok.beside none s.pool s),
          subst (λ m. IsHeap s.pool base (layout bs m)) same heap,
        ))
    | inr full ↦
        rw full (λ room. make_list-fits calls e base n bs s ok (ok.some_words full) heap room)
  ]

  make_optional-stops :
      (calls : HookCalls A) (e : Entry A) (base n : ℕ) (bs : List ℕ) (s : System A)
      → IsEntry e
      → IsHeap s.pool base (layout bs n)
      → n < need e
      → (t : System A) × (make_optional calls e.count e.size e.put s ≡ stopped (wipe t))
  unfolding make_optional make_list
  make_optional-stops calls e base n bs s ok heap = elim (Bool-cases (e.count == 0)) [
    | inl empty ↦ rw empty (λ short. absurd (omega (arith, short)))
    | inr full ↦ rw full (λ short.
        let given : malloc s.pool e.size ≡ (none, s.pool) =
          ap (malloc s.pool) ok.exact
          ∙ malloc-layout-none s.pool base n bs e.words heap (ok.some_words full) ok.small short in
        (
          handle_error calls err_overflow (e.put none s),
          ap (store_list calls e.size e.put s) given,
        ))
  ]

  -- All lists are made where there is room for all.
  pub build-fits :
      (calls : HookCalls A) (es : List (Entry A)) (base n : ℕ) (bs : List ℕ) (s : System A)
      → AreEntries es
      → IsHeap s.pool base (layout bs n)
      → total es ≤ n
      → (q : Pool) × (build calls es s ≡ ready (record (filled base bs es s) { pool = q }))
        × IsHeap q base (layout (all_grown bs es) (n - total es))
  build-fits calls [] base n bs s all heap room =
      let same : n ≡ n - 0 = omega arith in
      (s.pool, refl, subst (λ m. IsHeap s.pool base (layout bs m)) same heap)
  build-fits calls (e ∷ es) base n bs s all heap room =
      let now = e.put (address_of base bs e) s in
      let (p, made, next) =
        make_optional-fits calls e base n bs s all.0 heap (omega (arith, room)) in
      let (q, rest, last) =
        build-fits calls es base (n - need e) (grown bs e) (record now { pool = p }) all.1 next
          (omega (arith, room)) in
      let split : n - need e - total es ≡ n - (need e + total es) = omega arith in
      (
        q,
        ap (λ st. st >>= build calls es) made
            ∙ rest
            ∙ ap (λ t. ready (record t { pool = q }))
                (filled-beside base (grown bs e) es p now all.1),
        subst (λ m. IsHeap q base (layout (all_grown (grown bs e) es) m)) split last,
      )

  -- Where there is not, LLOS_Init returns with its configuration wiped.
  pub build-stops :
      (calls : HookCalls A) (es : List (Entry A)) (base n : ℕ) (bs : List ℕ) (s : System A)
      → AreEntries es
      → IsHeap s.pool base (layout bs n)
      → n < total es
      → (t : System A) × (build calls es s ≡ stopped (wipe t))
  build-stops calls [] base n bs s all heap short = absurd (omega (arith, short))
  build-stops calls (e ∷ es) base n bs s all heap short =
      let now = e.put (address_of base bs e) s in
      elim (Bool-cases (leb (need e) n)) [
        | inl room ↦
            let (p, made, next) =
              make_optional-fits calls e base n bs s all.0 heap (ground (arith, room)) in
            let (t, rest) =
              build-stops calls es base (n - need e) (grown bs e) (record now { pool = p }) all.1
                next (ground (arith, short, room)) in
            (t, ap (λ st. st >>= build calls es) made ∙ rest)
        | inr full ↦
            let (t, made) =
              make_optional-stops calls e base n bs s all.0 heap (ground (arith, full)) in
            (t, ap (λ st. st >>= build calls es) made)
      ]
