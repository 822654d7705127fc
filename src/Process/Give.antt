-- ===== src/Process/Give.antt =====
-- The loop of `do_exit` that gives the children away, and the processes that it wakes up.
use nku_os_lab.Base.{
  ℕ, zero, suc, ◌≤◌, ◌<◌, ◌≡◌, ◌≢◌, refl, sym, ◌∙◌, ap, subst, inl, inr, Bool, true, false, Option,
  none, List, [], ◌∷◌, length, rev_onto, ==_of_ne, ==_iff, if◌then◌else◌, arith, Bool-cases,
  false-ne-true, ℕ_discrete,
}
use nku_os_lab.Base.Outcome.{ok, out_of_fuel, ◌>>=◌}
use nku_os_lab.SkewHeap.Counts.{one_if_ne}
use nku_os_lab.Sched.{is_runnable, is_zombie, Kernel, SchedClass, wakeup_proc}
use nku_os_lab.Sched.Laws.{Lawful}
use nku_os_lab.Sched.Queued.{IsKernel}
use nku_os_lab.Sched.Wake.{wakeup_proc-Woken}
use nku_os_lab.Sched.RoundRobin.{occurs}
use nku_os_lab.Process.{Links, Procs, wt_child, wake_waiting, adopt, adopt_next, adopt_all}
use nku_os_lab.Process.Family.{IsSiblings, IsFamily}
use nku_os_lab.Process.Adopt.{IsGiving, given, given_at, adopt-IsGiving}

module _ {cl : SchedClass} (law : Lawful cl) where
  -- Nothing happened but that `p` may have been woken up; it was, if it waited for a child.
  pub record Roused (p : ℕ) (k t : Kernel) : Type 0 where
    pub kernel : IsKernel law t
    pub others : (q : ℕ) → p ≢ q → (t.procs q).state ≡ (k.procs q).state
    pub alive : is_zombie (t.procs p).state ≡ false
    pub keeps : is_runnable (k.procs p).state ≡ true → is_runnable (t.procs p).state ≡ true
    pub current : t.current ≡ k.current
    pub idleproc : t.idleproc ≡ k.idleproc

  pub Roused-refl :
      (p : ℕ) (k : Kernel) → IsKernel law k → is_zombie (k.procs p).state ≡ false → Roused p k k
  Roused-refl p k h a = record {
    kernel = h;
    others = λ q n. refl;
    alive = a;
    keeps = λ e. e;
    current = refl;
    idleproc = refl;
  }

  pub Roused-trans : (p : ℕ) (k t u : Kernel) → Roused p k t → Roused p t u → Roused p k u
  Roused-trans p k t u a b = record {
    kernel = b.kernel;
    others = λ q n. b.others q n ∙ a.others q n;
    alive = b.alive;
    keeps = λ e. b.keeps (a.keeps e);
    current = b.current ∙ a.current;
    idleproc = b.idleproc ∙ a.idleproc;
  }

  pub wake_waiting-Roused :
      (p : ℕ) (k : Kernel)
      → IsKernel law k
      → is_zombie (k.procs p).state ≡ false
      → (t : Kernel) × (wake_waiting cl p k ≡ ok t)
        × Roused p k t
        × ((k.procs p).wait_state ≡ wt_child → is_runnable (t.procs p).state ≡ true)
  wake_waiting-Roused p k h a = elim (ℕ_discrete (k.procs p).wait_state wt_child) [
    | no n ↦ (
      k,
      ap (λ b. if b then wakeup_proc cl p k else ok k) (==_of_ne _ _ n),
      Roused-refl p k h a,
      λ e. absurd (n e),
    )
    | yes e ↦
        let go : wake_waiting cl p k ≡ wakeup_proc cl p k =
          ap (λ b. if b then wakeup_proc cl p k else ok k) ((==_iff _ _).1 e) in
        elim (Bool-cases (is_runnable (k.procs p).state)) [
          | inl r ↦ (k, go ∙ (wakeup_proc-Woken law k p h).1 a r, Roused-refl p k h a, λ _. r)
          | inr r ↦
              let (t, q, w) = (wakeup_proc-Woken law k p h).2 a r in
              (
                t,
                go ∙ q,
                record {
                  kernel = w.kernel;
                  others = w.others;
                  alive = ap is_zombie w.awake;
                  keeps = λ _. ap is_runnable w.awake;
                  current = w.current;
                  idleproc = w.idleproc;
                },
                λ _. ap is_runnable w.awake,
              )
        ]
  ]

  -- The same if the test says so, and else nothing.
  pub wake_if :
      (b : Bool) (p : ℕ) (k : Kernel)
      → IsKernel law k
      → is_zombie (k.procs p).state ≡ false
      → (t : Kernel) × ((if b then wake_waiting cl p k else ok k) ≡ ok t)
        × Roused p k t
        × (b ≡ true → (k.procs p).wait_state ≡ wt_child → is_runnable (t.procs p).state ≡ true)
        × (b ≡ false → t ≡ k)
  wake_if true p k h a =
      let (t, q, r, w) = wake_waiting-Roused p k h a in
      (t, q, r, λ _. w, λ e. absurd (false-ne-true (sym e)))
  wake_if false p k h a = (k, refl, Roused-refl p k h a, λ e. absurd (false-ne-true e), λ _. refl)

  -- All children of `x` are those of `i`, and no other process gained or lost one.
  pub record HandedOver (x : ℕ) (s t : Procs) (kids kids' : ℕ → List ℕ) : Type 0 where
    pub family : IsFamily t.links kids'
    pub none_left : kids' x ≡ []
    pub taken : kids' s.initproc ≡ rev_onto (kids x) (kids s.initproc)
    pub others : (y : ℕ) → x ≢ y → s.initproc ≢ y → kids' y ≡ kids y
    pub exit_code : t.exit_code ≡ s.exit_code
    pub roused : Roused s.initproc s.kernel t.kernel
    pub zombies :
        (c : ℕ)
        → 0 < occurs c (kids x)
        → is_zombie (s.kernel.procs c).state ≡ true
        → (s.kernel.procs s.initproc).wait_state ≡ wt_child
        → is_runnable (t.kernel.procs s.initproc).state ≡ true

  pub handed :
      (x : ℕ) (s : Procs) (kids : ℕ → List ℕ)
      → kids x ≡ []
      → IsGiving x s.links kids
      → IsKernel law s.kernel
      → is_zombie (s.kernel.procs s.initproc).state ≡ false
      → HandedOver x s s kids kids
  unfolding occurs
  handed x s kids e g h a = record {
    family = record {
      lines = λ y. elim (ℕ_discrete x y) [
        | yes i ↦
            subst (λ z. IsSiblings s.links z none (s.links.cptr z) (kids z)) i
              (subst (λ ks. IsSiblings s.links x none (s.links.cptr x) ks) (sym e)
                (subst (λ ks. IsSiblings s.links x g.giving.0 (s.links.cptr x) ks) e g.giving.1))
        | no n ↦ g.lines y n
      ];
      once = g.once;
    };
    none_left = e;
    taken = ap (λ ks. rev_onto ks (kids s.initproc)) (sym e);
    others = λ y n m. refl;
    exit_code = refl;
    roused = Roused-refl s.initproc s.kernel h a;
    zombies = λ c o. absurd (subst (λ ks. 0 < occurs c ks → ⊥) (sym e) (λ z. omega (arith, z)) o);
  }

  -- The first pointer of a process that gives its children away.
  first_left :
      (x : ℕ) (l : Links) (kids : ℕ → List ℕ) (cs : List ℕ)
      → IsGiving x l kids
      → kids x ≡ cs
      → (younger : Option ℕ) × IsSiblings l x younger (l.cptr x) cs
  first_left x l kids cs g e =
      (g.giving.0, subst (λ ks. IsSiblings l x g.giving.0 (l.cptr x) ks) e g.giving.1)

  stops : (fuel x : ℕ) (s : Procs) → s.links.cptr x ≡ none → adopt_all cl fuel x s ≡ ok s
  unfolding adopt_all adopt_next
  stops zero x s e = ap (λ o. adopt_next cl (λ t. out_of_fuel) x o s) e
  stops (suc fuel) x s e = ap (λ o. adopt_next cl (adopt_all cl fuel x) x o s) e

  pub adopt_all-HandedOver :
      (fuel x : ℕ) (cs : List ℕ) (s : Procs) (kids : ℕ → List ℕ)
      → IsGiving x s.links kids
      → x ≢ s.initproc
      → kids x ≡ cs
      → length cs ≤ fuel
      → IsKernel law s.kernel
      → is_zombie (s.kernel.procs s.initproc).state ≡ false
      → (t : Procs) × (kids' : ℕ → List ℕ) × (adopt_all cl fuel x s ≡ ok t)
        × HandedOver x s t kids kids'
  unfolding adopt_all occurs adopt_next
  adopt_all-HandedOver fuel x [] s kids g n e l h a =
      (s, kids, stops fuel x s (first_left x s.links kids [] g e).1, handed x s kids e g h a)
  adopt_all-HandedOver zero x (c ∷ cs) s kids g n e l h a = absurd (omega (arith, l))
  adopt_all-HandedOver (suc fuel) x (c ∷ cs) s kids g n e l h a =
      let b = is_zombie (s.kernel.procs c).state in
      let (k, q, r, woken, same) = wake_if b s.initproc s.kernel h a in
      let u = record s { links = adopt x s.initproc c s.links; kernel = k } in
      let next = given x s.initproc c cs s.links kids g n e in
      let at_x : next x ≡ cs =
        given_at x s.initproc c cs s.links kids g n e x (λ ks. ks ≡ cs) (λ _. refl)
          (λ z. absurd (n (sym z))) (λ z _. absurd (z refl)) in
      let at_i : next s.initproc ≡ c ∷ kids s.initproc =
        given_at x s.initproc c cs s.links kids g n e s.initproc (λ ks. ks ≡ c ∷ kids s.initproc)
          (λ z. absurd (n z)) (λ _. refl) (λ _ z. absurd (z refl)) in
      let (t, kids', run, d) =
        adopt_all-HandedOver fuel x cs u next (adopt-IsGiving x s.initproc c cs s.links kids g n e)
          n at_x (omega (arith, l)) r.kernel r.alive in
      (
        t,
        kids',
        ap (λ o. adopt_next cl (adopt_all cl fuel x) x o s)
              (first_left x s.links kids (c ∷ cs) g e).1.0
            ∙ ap
                (λ o. o >>= λ k.
                  adopt_all cl fuel x
                    (record s { links = adopt x s.initproc c s.links; kernel = k }))
                q
            ∙ run,
        record {
          family = d.family;
          none_left = d.none_left;
          taken =
              d.taken
              ∙ ap (λ ks. rev_onto ks (next s.initproc)) at_x
              ∙ ap (rev_onto cs) at_i
              ∙ ap (λ ks. rev_onto ks (kids s.initproc)) (sym e);
          others = λ y i j.
              d.others y i j
              ∙ given_at x s.initproc c cs s.links kids g n e y (λ ks. ks ≡ kids y)
                  (λ z. absurd (i z)) (λ z. absurd (j z)) (λ _ _. refl);
          exit_code = d.exit_code;
          roused = Roused-trans s.initproc s.kernel k t.kernel r d.roused;
          zombies = λ y o z w. elim (Bool-cases b) [
            | inl i ↦ d.roused.keeps (woken i w)
            | inr i ↦ elim (ℕ_discrete c y) [
              | yes j ↦
                  absurd
                    (false-ne-true (sym i ∙ ap (λ p. is_zombie (s.kernel.procs p).state) j ∙ z))
              | no j ↦
                  d.zombies y
                    (subst (λ ks. 0 < occurs y ks) (sym at_x)
                      (omega (arith, subst (λ ks. 0 < occurs y ks) e o, one_if_ne c y j)))
                    (ap (λ (k : Kernel). is_zombie (k.procs y).state) (same i) ∙ z)
                    (ap (λ (k : Kernel). (k.procs s.initproc).wait_state) (same i) ∙ w)
            ]
          ];
        },
      )
