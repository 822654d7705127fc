-- ===== src/SkewHeap/Entries.antt =====
-- Lab8/code/libs/skew_heap.h on the three pointers of every entry. An entry is a number, and 0 is
-- NULL. `less a b` is `comp(a, b) == -1`, the only test of the comparison.
use nku_os_lab.Base.{ℕ, zero, suc, Bool, update, ◌==◌, if◌then◌else◌}
use nku_os_lab.Base.Outcome.{Outcome, ok, out_of_fuel, ◌>>=◌}

-- `struct skew_heap_entry`
pub record Entries : Type 0 where
  pub parent : ℕ → ℕ
  pub left : ℕ → ℕ
  pub right : ℕ → ℕ

unfoldable pub skew_heap_init : ℕ → Entries → Entries
skew_heap_init a s = record {
  parent = update s.parent a 0;
  left = update s.left a 0;
  right = update s.right a 0;
}

-- `a->left = l; a->right = r; if (l) l->parent = a;`
unfoldable pub set_sons : ℕ → ℕ → ℕ → Entries → Entries
set_sons a l r s = record {
  parent = if l == 0 then s.parent else update s.parent l a;
  left = update s.left a l;
  right = update s.right a r;
}

-- `skew_heap_merge`, with as much fuel as calls that may be inside one another.
unfoldable pub merge_entries : (ℕ → ℕ → Bool) → ℕ → ℕ → ℕ → Entries → Outcome (ℕ × Entries)
unfolding set_sons
merge_entries less zero a b s = out_of_fuel
merge_entries less (suc n) a b s =
    let below = λ (x y : ℕ). merge_entries less n x y s in
    if a == 0
    then ok (b, s)
    else if b == 0
    then ok (a, s)
    else if less a b
    then (below (s.right a) b >>= λ (l, s'). ok (a, set_sons a l (s.left a) s'))
    else (below a (s.right b) >>= λ (l, s'). ok (b, set_sons b l (s.left b) s'))

-- `skew_heap_insert`
unfoldable pub insert_entry : (ℕ → ℕ → Bool) → ℕ → ℕ → ℕ → Entries → Outcome (ℕ × Entries)
unfolding merge_entries skew_heap_init
insert_entry less n a b s = merge_entries less n a b (skew_heap_init b s)

-- `if (p->left == b) p->left = rep; else p->right = rep;`
unfoldable pub replace_son : ℕ → ℕ → ℕ → Entries → Entries
replace_son p b rep s =
    if s.left p == b
    then record s { left = update s.left p rep }
    else record s { right = update s.right p rep }

-- `if (rep) rep->parent = p;`
unfoldable pub set_parent : ℕ → ℕ → Entries → Entries
set_parent rep p s = if rep == 0 then s else record s { parent = update s.parent rep p }

-- `skew_heap_remove`
unfoldable pub remove_entry : (ℕ → ℕ → Bool) → ℕ → ℕ → ℕ → Entries → Outcome (ℕ × Entries)
unfolding merge_entries replace_son set_parent
remove_entry less n a b s = do
  (rep, t) ← merge_entries less n (s.left b) (s.right b) s
  let p = s.parent b
  let u = set_parent rep p t
  ok (if p == 0 then (rep, u) else (a, replace_son p b rep u))
