-- ===== src/DependencyGraph/Search.antt =====
-- core/coordination/deadlock.py: what one call of `dfs` in `find_cycles` does, from a state in which
-- no cycle was met: it finishes the node and all that it reaches, or it reports a cycle.
use puffinfloww.Base.{
  ℕ, zero, suc, ◌≡◌, refl, sym, ◌∙◌, ap, subst, ◌⊎◌, inl, inr, true, false, ◌||◌, List, [], ◌∷◌,
  ◌++◌, Name, arith, ◌==◌, contains, discard, All, Bool-cases, ==→eq, add_of_absent, contains-add,
}
use puffinfloww.Digraph.{
  Successors, Subset, Subset_trans, Chain, IsCycle, IsFinished, Chain-snoc, from_first, drop_last,
  drop_last-snoc, discard-snoc, IsCycle-from_first,
}
use puffinfloww.DependencyGraph.{
  State, enter, leave, report, Visit, exhausted, found, finished, scan, dfs,
}

-- `f` holds the finished names, newest first; the stack holds the names on the path.
pub record Inv (next : Successors) (st : State) (f : List Name) : Type 0 where
  pub ordered : IsFinished next f
  pub split : (y : Name) → contains y st.visited ≡ (contains y f || contains y st.rec_stack)
  pub apart : (y : Name) → contains y f ≡ true → contains y st.rec_stack ≡ false
  pub same : st.path ≡ st.rec_stack
  pub chained : Chain next st.path

pub record Finishes (next : Successors) (st : State) (f : List Name) (st' : State) : Type 0 where
  pub fin : List Name
  pub inv : Inv next st' fin
  pub stack : st'.rec_stack ≡ st.rec_stack
  pub quiet : st'.cycles ≡ st.cycles
  pub grows : Subset f fin

pub record Reports (next : Successors) (st st' : State) : Type 0 where
  pub cycle : List Name
  pub real : IsCycle next cycle
  pub added : st'.cycles ≡ st.cycles ++ cycle ∷ []

-- The outcome of a call that is to finish the names `goals`.
abbrev pub Post : Successors → State → List Name → List Name → Visit State → Type 0
Post next st f goals exhausted = Unit {0}
Post next st f goals (found st') = Reports next st st'
Post next st f goals (finished st') = (h : Finishes next st f st') × Subset goals h.fin

-- Where a call of `dfs` may be made.
abbrev pub Ready : Successors → State → Name → Type 0
Ready next st node = (contains node st.visited ≡ false) × Chain next (st.path ++ node ∷ [])

abbrev pub DfsSpec : Successors → (Name → State → Visit State) → Type 0
DfsSpec next rec =
    (node : Name) (st : State) (f : List Name)
    → Inv next st f
    → Ready next st node
    → Post next st f (node ∷ []) (rec node st)

module _ (next : Successors) where
  report-Reports :
      (st : State) (f : List Name) (n : Name)
      → Inv next st f
      → contains n st.rec_stack ≡ true
      → Chain next (st.path ++ n ∷ [])
      → Reports next st (report st n)
  report-Reports st f n v m c = record {
    cycle = from_first n st.path ++ n ∷ [];
    real = IsCycle-from_first next n st.path (rw v.same m) c;
    added = refl;
  }

  -- A name that is seen and not on the stack is finished.
  seen_finished :
      (st : State) (f : List Name) (n : Name)
      → Inv next st f
      → contains n st.visited ≡ true
      → contains n st.rec_stack ≡ false
      → contains n f ≡ true
  seen_finished st f n v seen off = ground (arith, v.split n)

  Finishes-refl : (st : State) (f : List Name) → Inv next st f → Finishes next st f st
  Finishes-refl st f v = record { fin = f; inv = v; stack = refl; quiet = refl; grows = λ y m. m }

  Post-after :
      (st st' : State) (f goals all : List Name) (h : Finishes next st f st') (r : Visit State)
      → ((y : Name) → contains y all ≡ true → (contains y goals ≡ true) ⊎ (contains y h.fin ≡ true))
      → Post next st' h.fin goals r
      → Post next st f all r
  Post-after st st' f goals all h exhausted s p = tt
  Post-after st st' f goals all h (found st'') s p = record {
    cycle = p.cycle;
    real = p.real;
    added = p.added ∙ ap (λ cs. cs ++ p.cycle ∷ []) h.quiet;
  }
  Post-after st st' f goals all h (finished st'') s (k, g) = (
    record {
      fin = k.fin;
      inv = k.inv;
      stack = k.stack ∙ h.stack;
      quiet = k.quiet ∙ h.quiet;
      grows = Subset_trans f h.fin k.fin h.grows k.grows;
    },
    λ y m. elim (s y m) [ inl a ↦ g y a | inr b ↦ k.grows y b ],
  )

  same_path :
      (st : State) (f : List Name) (st' : State)
      → Inv next st f
      → Finishes next st f st'
      → st.path ≡ st'.path
  same_path st f st' v h = v.same ∙ sym h.stack ∙ sym h.inv.same

  abbrev Chains : State → List Name → Type 0
  Chains st = All (λ n. Chain next (st.path ++ n ∷ []))

  split_cons :
      (n : Name) (ns done : List Name)
      → contains n done ≡ true
      → (y : Name) → contains y (n ∷ ns) ≡ true
      → (contains y ns ≡ true) ⊎ (contains y done ≡ true)
  unfolding contains
  split_cons n ns done here y m = elim (Bool-cases (y == n)) [
    | inl e ↦ inr (rw (==→eq y n e) here)
    | inr e ↦ inl (ground arith)
  ]

  scan-Post :
      (rec : Name → State → Visit State)
      → DfsSpec next rec
      → (ns : List Name) (st : State) (f : List Name) → Inv next st f
      → Chains st ns
      → Post next st f ns (scan rec ns st)
  unfolding scan contains Finishes-refl
  scan-Post rec spec [] st f v c = (Finishes-refl st f v, λ y m. cc)
  scan-Post rec spec (n ∷ ns) st f v c = elim (Bool-cases (contains n st.visited)) [
    | inl seen ↦ elim (Bool-cases (contains n st.rec_stack)) [
      | inl on ↦ rw (seen, on) (report-Reports st f n v on c.0)
      | inr off ↦
          rw (seen, off)
            (Post-after st st f ns (n ∷ ns) (Finishes-refl st f v) (scan rec ns st)
              (split_cons n ns f (seen_finished st f n v seen off))
              (scan-Post rec spec ns st f v c.1))
    ]
    | inr fresh ↦ rw fresh (
        after_visit (rec n st) (spec n st f v (fresh, c.0)) (λ st' h.
          scan-Post rec spec ns st' h.fin h.inv
            (subst (λ p. All (λ m. Chain next (p ++ m ∷ [])) ns) (same_path st f st' v h) c.1)))
  ]
    where
      after_visit :
          (r : Visit State)
          → Post next st f (n ∷ []) r
          → ((st' : State) (h : Finishes next st f st') → Post next st' h.fin ns (scan rec ns st'))
          → Post next st f (n ∷ ns) (elim r [
            | exhausted ↦ exhausted
            | found st' ↦ found st'
            | finished st' ↦ scan rec ns st'
          ])
      after_visit exhausted p rest = tt
      after_visit (found st') p rest = p
      after_visit (finished st') (h, g) rest =
          Post-after st st' f ns (n ∷ ns) h (scan rec ns st')
            (split_cons n ns h.fin (g n (ground arith))) (rest st' h)

  fresh_off_stack :
      (st : State) (f : List Name) (n : Name)
      → Inv next st f
      → contains n st.visited ≡ false
      → contains n st.rec_stack ≡ false
  fresh_off_stack st f n v fresh = ground (arith, v.split n)

  enter-Inv :
      (st : State) (f : List Name) (n : Name)
      → Inv next st f
      → Ready next st n
      → Inv next (enter st n) f
  enter-Inv st f n v (fresh, c) =
      let off = fresh_off_stack st f n v fresh in
      record {
        ordered = v.ordered;
        split = λ y.
            ground (arith, v.split y, contains-add y n st.visited, contains-add y n st.rec_stack);
        apart = λ y m. ground (arith, v.split y, v.apart y, contains-add y n st.rec_stack);
        same = rw (add_of_absent n st.rec_stack off) (ap (λ s. s ++ n ∷ []) v.same);
        chained = c;
      }

  leave-Finishes :
      (st : State) (f : List Name) (n : Name) (st' : State)
      → Inv next st f
      → Ready next st n
      → (h : Finishes next (enter st n) f st') → Subset (next n) h.fin
      → Post next st f (n ∷ []) (finished (leave st' n))
  unfolding contains
  leave-Finishes st f n st' v (fresh, c) h all =
      let off = fresh_off_stack st f n v fresh in
      let stack : st'.rec_stack ≡ st.rec_stack ++ n ∷ [] =
        h.stack ∙ add_of_absent n st.rec_stack off in
      let popped : discard n st'.rec_stack ≡ st.rec_stack =
        ap (discard n) stack ∙ discard-snoc st.rec_stack n off in
      let path : drop_last st'.path ≡ st.rec_stack =
        ap drop_last (h.inv.same ∙ stack) ∙ drop_last-snoc st.rec_stack n in
      (
        record {
          fin = n ∷ h.fin;
          inv = record {
            ordered = (all, new_finished, h.inv.ordered);
            split = λ y. ground (
              arith,
              h.inv.split y,
              ap (contains y) popped,
              ap (contains y) h.stack,
              contains-add y n st.rec_stack,
            );
            apart = λ y m. ground (
              arith,
              off,
              h.inv.apart y,
              ap (contains y) popped,
              ap (contains y) h.stack,
              contains-add y n st.rec_stack,
            );
            same = path ∙ sym popped;
            chained = subst (Chain next) (v.same ∙ sym path) v.chained;
          };
          stack = popped;
          quiet = h.quiet;
          grows = λ y m. let m' = h.grows y m in ground arith;
        },
        λ y m. ground arith,
      )
    where
      new_finished : contains n h.fin ≡ false
      new_finished =
          ground (arith, h.inv.apart n, ap (contains n) h.stack, contains-add n n st.rec_stack)

  chains_all :
      (p : List Name) (n : Name) (ns : List Name)
      → Chain next (p ++ n ∷ [])
      → Subset ns (next n)
      → All (λ m. Chain next ((p ++ n ∷ []) ++ m ∷ [])) ns
  unfolding contains
  chains_all p n [] c s = tt
  chains_all p n (m ∷ ns) c s = (
    Chain-snoc next p n m c (s m (ground arith)),
    chains_all p n ns c (λ y i. s y (ground arith)),
  )

  pub dfs-Post : (fuel : ℕ) → DfsSpec next (dfs next fuel)
  unfolding dfs
  dfs-Post zero n st f v r = tt
  dfs-Post (suc fuel) n st f v r = after_scan (scan (dfs next fuel) (next n) (enter st n)) (
      scan-Post (dfs next fuel) (dfs-Post fuel) (next n) (enter st n) f (enter-Inv st f n v r)
        (chains_all st.path n (next n) r.1 (λ y m. m)))
    where
      after_scan :
          (o : Visit State)
          → Post next (enter st n) f (next n) o
          → Post next st f (n ∷ []) (elim o [
            | exhausted ↦ exhausted
            | found st' ↦ found st'
            | finished st' ↦ finished (leave st' n)
          ])
      after_scan exhausted p = tt
      after_scan (found st') p = record { cycle = p.cycle; real = p.real; added = p.added }
      after_scan (finished st') (h, all) = leave-Finishes st f n st' v r h all
